-- ===== src/Flow/Export/Tests.antt =====
-- An implementation of the JSON interface, and the exporter's theorems at a small program.
use Prim.Native.String.{String}
use text.Mathlib.Text.{◌==◌ as str_eq}
use text.Mathlib.TextPositions.{eq_refl}
use ez_cpp.Prelude.{
  ℕ, ◌≡◌, refl, ap, Bool, true, false, none, some, List, [], ◌∷◌, arith, if◌then◌else◌, Bool-cases,
  inl, inr,
}
use ez_cpp.Flow.Json.{Json}
use ez_cpp.Flow.Ast.{
  Located, Literal, Expression, expression, equality_expression, relational_expression,
  additive_expression, multiplicative_expression, unary, literal, no_logical, no_equality,
  no_relational, no_additive, no_multiplicative,
}
use ez_cpp.Flow.Ast.Statements.{
  no_statement, statement, break_statement, if_statement, WorkflowScope, workflow_scope,
  condition_block, ConditionBlocks, no_block, block, if_block,
}
use ez_cpp.Flow.Export.{Program, if_block_to_json, program_to_json, get_code, substr, take_text}
use ez_cpp.Flow.Export.Total.{
  Exported, StatementsIn, IfBlockIn, program_to_json-total, if_block_to_json-drops-elif,
}

mutual
  data Value : Type 0 where
    string_value : String → Value
    object : Entries → Value
    items : Items → Value

  data Items : Type 0 where
    no_item : Items
    item : Value → Items → Items

  data Entries : Type 0 where
    no_entry : Entries
    entry : String → Value → Entries → Entries

abbrev put : Entries → String → Value → Entries
put no_entry key v = entry key v no_entry
put (entry k w es) key v = if str_eq k key then entry k v es else entry k w (put es key v)

put_twice : (o : Entries) (key : String) (v w : Value) → put (put o key v) key w ≡ put o key w
put_twice no_entry key v w = rw (eq_refl key)
put_twice (entry k u es) key v w = elim (Bool-cases (str_eq k key)) [
  | inl same ↦ rw (same, same)
  | inr other ↦ rw (other, other) (ap (entry k u) (put_twice es key v w))
]

abbrev to_items : List Value → Items
to_items [] = no_item
to_items (v ∷ vs) = item v (to_items vs)

abbrev json : Json
json = record {
  Value = Value;
  Object = Entries;
  no_entries = no_entry;
  put = put;
  of_string = string_value;
  of_object = object;
  of_array = λ vs. items (to_items vs);
  put_twice = put_twice;
}

abbrev span : ℕ → ℕ → Located
span i j = record { start_position = i; end_position = j }

-- The literal expression at a span.
abbrev truth : Located → Bool → Expression
truth l b =
    expression l
      (equality_expression l
        (relational_expression l
          (additive_expression l
            (multiplicative_expression l (unary l none (literal (Literal.boolean b))) l
              no_multiplicative)
            l no_additive)
          l no_relational)
        l no_equality)
      l no_logical

abbrev breaks : WorkflowScope
breaks =
    workflow_scope (span 0 0)
      (statement (break_statement (record { position = span 0 0 })) no_statement)

abbrev branches : ConditionBlocks
branches = block (condition_block (span 0 0) (truth (span 8 13) false) breaks) no_block

abbrev sample : Program
sample = record {
  code = "if true false";
  file_path = "";
  ast = record {
    position = span 0 13;
    statements =
        statement
          (if_statement (
            if_block (span 0 13) (condition_block (span 3 7) (truth (span 3 7) true) breaks)
              branches breaks))
          no_statement;
  };
  error_message = "";
  valid = true;
}

condition_code : get_code sample (span 3 7) ≡ some "true"
unfolding get_code substr take_text
condition_code = refl

sample-StatementsIn : StatementsIn sample sample.ast.statements
unfolding StatementsIn
sample-StatementsIn = (((omega arith, (tt, tt)), (omega arith, tt), (tt, tt)), tt)

program_to_json-total_example :
    (vs : List Value) × (program_to_json json sample sample.ast ≡ some (items (to_items vs)))
    × Exported json sample sample.ast.statements vs
program_to_json-total_example = program_to_json-total json sample sample.ast sample-StatementsIn

sample-IfBlockIn : IfBlockIn sample (
    if_block
      (span 0 13)
      (condition_block (span 3 7) (truth (span 3 7) true) breaks)
      branches
      breaks)
unfolding StatementsIn
sample-IfBlockIn = sample-StatementsIn.0

if_block_to_json-drops-elif_example :
    if_block_to_json json sample (
      if_block
        (span 0 13)
        (condition_block (span 3 7) (truth (span 3 7) true) breaks)
        branches
        breaks)
    ≡ if_block_to_json json sample (
        if_block
          (span 0 13)
          (condition_block (span 3 7) (truth (span 3 7) true) breaks)
          no_block
          breaks)
if_block_to_json-drops-elif_example =
    if_block_to_json-drops-elif json sample (span 0 13) (span 3 7) (span 0 0)
      (truth (span 3 7) true) breaks branches (break_statement (record { position = span 0 0 }))
      no_statement sample-IfBlockIn
