-- ===== src/Flow/Ast/Statements.antt =====
-- The statements of src/libs/flow/headers/ez/flow/ast.hpp.
use ez_cpp.Prelude.{Option}
use ez_cpp.Flow.Ast.{Located, Identifier, IdentifierPath, Signature, Expression, Dictionary}

pub record AnonymousObjectConstruction : Type 0 where
  pub position : Located
  pub type : Identifier
  pub arguments : Dictionary

pub record VariableDeclaration : Type 0 where
  pub position : Located
  pub name : Identifier
  pub type : Identifier
  pub expression : Option Expression

pub record AssignmentStatement : Type 0 where
  pub position : Located
  pub path : IdentifierPath
  pub expression : Expression

pub record ImportStatement : Type 0 where
  pub position : Located
  pub path : IdentifierPath

pub record DelayStatement : Type 0 where
  pub position : Located
  pub expression : Expression

pub record ReturnStatement : Type 0 where
  pub position : Located
  pub expression : Expression

pub record BreakStatement : Type 0 where
  pub position : Located

pub record RaiseStatement : Type 0 where
  pub position : Located
  pub expression : Expression

mutual
  pub data WorkflowStatement : Type 0 where
    import_statement : ImportStatement → WorkflowStatement
    variable_declaration : VariableDeclaration → WorkflowStatement
    assignment_statement : AssignmentStatement → WorkflowStatement
    delay_statement : DelayStatement → WorkflowStatement
    return_statement : ReturnStatement → WorkflowStatement
    raise_statement : RaiseStatement → WorkflowStatement
    break_statement : BreakStatement → WorkflowStatement
    expression_statement : Expression → WorkflowStatement
    if_statement : IfBlock → WorkflowStatement
    repeat_statement : RepeatBlock → WorkflowStatement
    definition_statement : WorkflowDefinition → WorkflowStatement

  pub data WorkflowStatements : Type 0 where
    no_statement : WorkflowStatements
    statement : WorkflowStatement → WorkflowStatements → WorkflowStatements

  pub data WorkflowScope : Type 0 where
    workflow_scope : Located → WorkflowStatements → WorkflowScope

  pub data ConditionBlock : Type 0 where
    condition_block : Located → Expression → WorkflowScope → ConditionBlock

  pub data ConditionBlocks : Type 0 where
    no_block : ConditionBlocks
    block : ConditionBlock → ConditionBlocks → ConditionBlocks

  -- The `if` block, the `elif` blocks and the `else` block.
  pub data IfBlock : Type 0 where
    if_block : Located → ConditionBlock → ConditionBlocks → WorkflowScope → IfBlock

  pub data RepeatBlock : Type 0 where
    repeat_block : Located → WorkflowScope → RepeatBlock

  pub data WorkflowDefinition : Type 0 where
    workflow_definition :
        Located → Identifier → Option Signature → WorkflowScope → WorkflowDefinition

-- The tree that the parser makes: `ast::Program`.
pub record ProgramAst : Type 0 where
  pub position : Located
  pub statements : WorkflowStatements
