-- ===== src/Flow/Export.antt =====
-- The JSON exporter, src/libs/flow/src/exporter/exporter.cpp, and the slices of code that it prints
-- (src/libs/flow/headers/ez/flow/program.hpp).
-- A position counts characters of the code. `none` is the exception of a slice that starts beyond
-- the end of the code. boost::json is the parameter `J`.
pub mod Total
mod Tests
use Prim.Native.String.{String}
use ez_cpp.Prelude.{
  ℕ, zero, suc, ◌+◌, ◌-◌, ◌%◌, ◌^◌, Bool, Option, none, some, List, [], ◌∷◌, ◌>>=◌,
}
use ez_cpp.Flow.Json.{Json}
use ez_cpp.Flow.Ast.{
  Located, Identifier, IdentifierPath, Signature, Expression, expression_position, Dictionary,
  dictionary_of, Assignments, no_assignment, assignment,
}
use ez_cpp.Flow.Ast.Statements.{
  VariableDeclaration, AssignmentStatement, ImportStatement, DelayStatement, ReturnStatement,
  BreakStatement, RaiseStatement, WorkflowStatement, import_statement, variable_declaration,
  assignment_statement, delay_statement, return_statement, raise_statement, break_statement,
  expression_statement, if_statement, repeat_statement, definition_statement, WorkflowStatements,
  no_statement, statement, WorkflowScope, workflow_scope, ConditionBlock, condition_block,
  ConditionBlocks, no_block, block, IfBlock, if_block, RepeatBlock, repeat_block,
  WorkflowDefinition, workflow_definition, ProgramAst,
}

pub record Program : Type 0 where
  pub code : String
  pub file_path : String
  pub ast : ProgramAst
  pub error_message : String
  pub valid : Bool

-- The first `n` characters, or all there are.
unfoldable pub take_text : String → ℕ → String
take_text String.[] n = String.[]
take_text (String.◌∷◌ c s) zero = String.[]
take_text (String.◌∷◌ c s) (suc n) = String.◌∷◌ c (take_text s n)

-- `std::string_view::substr`
unfoldable pub substr : String → ℕ → ℕ → Option String
substr s zero n = some (take_text s n)
substr String.[] (suc i) n = none
substr (String.◌∷◌ c s) (suc i) n = substr s i n

-- `Program::get_code` of a location: the count is a difference of two size_t.
unfoldable pub get_code : Program → Located → Option String
get_code p l =
    substr p.code l.start_position ((l.end_position + 2 ^ 64 - l.start_position) % 2 ^ 64)

-- `as_str` of an optional signature.
unfoldable pub signature_to_str : Program → Option Signature → Option String
signature_to_str p none = some "null"
signature_to_str p (some s) = get_code p s.position

module _ (J : Json) (p : Program) where
  -- An object with one entry that is a slice of the code.
  unfoldable pub slice_to_json : String → Located → Option J.Value
  slice_to_json key l = do
    code ← get_code p l
    some (J.of_object (J.put J.no_entries key (J.of_string code)))

  unfoldable pub import_to_json : ImportStatement → Option J.Value
  import_to_json item = slice_to_json "import" item.path.position

  unfoldable pub assignments_to_json : J.Object → Assignments → Option J.Object
  assignments_to_json out no_assignment = some out
  assignments_to_json out (assignment l name value rest) = do
    code ← get_code p (expression_position value)
    assignments_to_json (J.put out name.text (J.of_string code)) rest

  unfoldable pub dictionary_to_json : Dictionary → Option J.Value
  dictionary_to_json (dictionary_of l entries) = do
    out ← assignments_to_json J.no_entries entries
    some (J.of_object out)

  unfoldable pub expression_to_json : Expression → Option J.Value
  expression_to_json item = slice_to_json "expression" (expression_position item)

  unfoldable pub arguments_to_json : J.Object → Option Expression → Option J.Object
  arguments_to_json self none = some self
  arguments_to_json self (some e) = do v ← expression_to_json e; some (J.put self "arguments" v)

  unfoldable pub declaration_to_json : VariableDeclaration → Option J.Value
  declaration_to_json item = do
    let named = J.put J.no_entries "name" (J.of_string item.name.text)
    self ← arguments_to_json (J.put named "type" (J.of_string item.type.text)) item.expression
    some (J.of_object (J.put J.no_entries "object" (J.of_object self)))

  unfoldable pub return_to_json : ReturnStatement → Option J.Value
  return_to_json item = slice_to_json "return" (expression_position item.expression)

  unfoldable pub raise_to_json : RaiseStatement → Option J.Value
  raise_to_json item = slice_to_json "raise" (expression_position item.expression)

  unfoldable pub delay_to_json : DelayStatement → Option J.Value
  delay_to_json item = slice_to_json "delay" (expression_position item.expression)

  -- The key is spelled as the source spells it.
  unfoldable pub assignment_to_json : AssignmentStatement → Option J.Value
  assignment_to_json item = do
    name ← get_code p item.path.position
    value ← get_code p (expression_position item.expression)
    let self = J.put (J.put J.no_entries "name" (J.of_string name)) "expression" (J.of_string value)
    some (J.of_object (J.put J.no_entries "assigment" (J.of_object self)))

  -- A condition and its statements, which are already exported.
  unfoldable pub condition_to_json : Expression → J.Value → Option J.Value
  condition_to_json condition statements = do
    code ← get_code p (expression_position condition)
    some (
        J.of_object
          (J.put (J.put J.no_entries "condition" (J.of_string code)) "statements" statements))

  -- The loop over the `elif` blocks; `statements` is the export of the `if` block's statements,
  -- which the source prints for each of them.
  unfoldable pub elif_blocks_to_json : J.Value → ConditionBlocks → Option (List J.Value)
  elif_blocks_to_json statements no_block = some []
  elif_blocks_to_json statements (block (condition_block l condition own) bs) = do
    v ← condition_to_json condition statements
    vs ← elif_blocks_to_json statements bs
    some (v ∷ vs)

  unfoldable pub elif_to_json : J.Value → ConditionBlocks → J.Object → Option J.Object
  elif_to_json statements no_block self = some self
  elif_to_json statements (block b bs) self = do
    vs ← elif_blocks_to_json statements (block b bs)
    some (J.put self "elif" (J.of_array vs))

  unfoldable mutual
    pub statement_to_json : WorkflowStatement → Option J.Value
    statement_to_json (import_statement s) = import_to_json s
    statement_to_json (variable_declaration s) = declaration_to_json s
    statement_to_json (assignment_statement s) = assignment_to_json s
    statement_to_json (delay_statement s) = delay_to_json s
    statement_to_json (return_statement s) = return_to_json s
    statement_to_json (raise_statement s) = raise_to_json s
    statement_to_json (break_statement s) = some (J.of_string "break")
    statement_to_json (expression_statement e) = expression_to_json e
    statement_to_json (if_statement b) = if_block_to_json b
    statement_to_json (repeat_statement b) = repeat_block_to_json b
    statement_to_json (definition_statement d) = definition_to_json d

    pub statements_to_json : WorkflowStatements → Option (List J.Value)
    statements_to_json no_statement = some []
    statements_to_json (statement s ss) = do
      v ← statement_to_json s
      vs ← statements_to_json ss
      some (v ∷ vs)

    pub scope_to_json : WorkflowScope → Option J.Value
    scope_to_json (workflow_scope l ss) = do vs ← statements_to_json ss; some (J.of_array vs)

    pub else_to_json : WorkflowScope → J.Object → Option J.Object
    else_to_json (workflow_scope l no_statement) self = some self
    else_to_json (workflow_scope l (statement s ss)) self = do
      v ← statement_to_json s
      vs ← statements_to_json ss
      some (J.put self "elif" (J.of_object (J.put J.no_entries "statements" (J.of_array (v ∷ vs)))))

    pub if_block_to_json : IfBlock → Option J.Value
    if_block_to_json (if_block l (condition_block k condition own) elifs els) = do
      statements ← scope_to_json own
      if_json ← condition_to_json condition statements
      self ← elif_to_json statements elifs (J.put J.no_entries "if" if_json)
      self ← else_to_json els self
      some (J.of_object (J.put J.no_entries "conditional" (J.of_object self)))

    pub repeat_block_to_json : RepeatBlock → Option J.Value
    repeat_block_to_json (repeat_block l s) = do
      v ← scope_to_json s
      some (J.of_object (J.put J.no_entries "repeat" v))

    pub definition_to_json : WorkflowDefinition → Option J.Value
    definition_to_json (workflow_definition l name signature s) = do
      code ← signature_to_str p signature
      v ← scope_to_json s
      let named = J.put J.no_entries "name" (J.of_string name.text)
      let self = J.put (J.put named "signature" (J.of_string code)) "statements" v
      some (J.of_object (J.put J.no_entries "workflow" (J.of_object self)))

  unfoldable pub program_to_json : ProgramAst → Option J.Value
  program_to_json program = do vs ← statements_to_json program.statements; some (J.of_array vs)
