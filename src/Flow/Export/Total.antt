-- ===== src/Flow/Export/Total.antt =====
-- Where the JSON exporter of src/libs/flow/src/exporter/exporter.cpp succeeds, and what it drops.
use Prim.Native.String.{String}
use ez_cpp.Prelude.{ℕ, zero, suc, ◌≤◌, ◌≡◌, refl, Option, none, some, List, [], ◌∷◌, arith, ◌>>=◌}
use ez_cpp.Flow.Json.{Json}
use ez_cpp.Flow.Ast.{Located, Signature, Expression, expression_position}
use ez_cpp.Flow.Ast.Statements.{
  VariableDeclaration, AssignmentStatement, WorkflowStatement, import_statement,
  variable_declaration, assignment_statement, delay_statement, return_statement, raise_statement,
  break_statement, expression_statement, if_statement, repeat_statement, definition_statement,
  WorkflowStatements, no_statement, statement, WorkflowScope, workflow_scope, ConditionBlock,
  condition_block, ConditionBlocks, no_block, block, IfBlock, if_block, RepeatBlock, repeat_block,
  WorkflowDefinition, workflow_definition, ProgramAst,
}
use ez_cpp.Flow.Export.{
  Program, substr, get_code, signature_to_str, slice_to_json, import_to_json, expression_to_json,
  arguments_to_json, declaration_to_json, return_to_json, raise_to_json, delay_to_json,
  assignment_to_json, condition_to_json, elif_blocks_to_json, elif_to_json, statement_to_json,
  statements_to_json, scope_to_json, else_to_json, if_block_to_json, repeat_block_to_json,
  definition_to_json, program_to_json,
}

Succeeds-bind {ℓ κ} :
    {A : Type ℓ} {B : Type κ} (m : Option A) (f : A → Option B)
    → (a : A) × (m ≡ some a)
    → ((a : A) → (b : B) × (f a ≡ some b))
    → (b : B) × ((m >>= f) ≡ some b)
Succeeds-bind m f (a, e) k = let (b, h) = k a in (b, rw e h)

abbrev pub text_length : String → ℕ
text_length String.[] = 0
text_length (String.◌∷◌ c s) = suc (text_length s)

-- The location starts within the code, or at its end.
abbrev pub InCode : Program → Located → Type 0
InCode p l = l.start_position ≤ text_length p.code

substr-total : (s : String) (i n : ℕ) → i ≤ text_length s → (t : String) × (substr s i n ≡ some t)
unfolding substr
substr-total s zero n h = (_, refl)
substr-total String.[] (suc i) n h = absurd (omega arith)
substr-total (String.◌∷◌ c s) (suc i) n h = substr-total s i n (omega arith)

pub get_code-total :
    (p : Program) (l : Located) → InCode p l → (t : String) × (get_code p l ≡ some t)
unfolding get_code
get_code-total p l h = substr-total p.code l.start_position _ h

abbrev ExpressionIn : Program → Expression → Type 0
ExpressionIn p e = InCode p (expression_position e)

abbrev OptionIn : Program → Option Expression → Type 0
OptionIn p none = Unit {0}
OptionIn p (some e) = ExpressionIn p e

abbrev SignatureIn : Program → Option Signature → Type 0
SignatureIn p none = Unit {0}
SignatureIn p (some s) = InCode p s.position

-- Every location that the exporter prints starts within the code. Of an elif block it prints the
-- condition alone.
unfoldable mutual
  pub StatementIn : Program → WorkflowStatement → Type 0
  StatementIn p (import_statement s) = InCode p s.path.position
  StatementIn p (variable_declaration s) = OptionIn p s.expression
  StatementIn p (assignment_statement s) = InCode p s.path.position × ExpressionIn p s.expression
  StatementIn p (delay_statement s) = ExpressionIn p s.expression
  StatementIn p (return_statement s) = ExpressionIn p s.expression
  StatementIn p (raise_statement s) = ExpressionIn p s.expression
  StatementIn p (break_statement s) = Unit {0}
  StatementIn p (expression_statement e) = ExpressionIn p e
  StatementIn p (if_statement b) = IfBlockIn p b
  StatementIn p (repeat_statement (repeat_block l s)) = ScopeIn p s
  StatementIn p (definition_statement (workflow_definition l name s w)) =
      SignatureIn p s × ScopeIn p w

  pub StatementsIn : Program → WorkflowStatements → Type 0
  StatementsIn p no_statement = Unit {0}
  StatementsIn p (statement s ss) = StatementIn p s × StatementsIn p ss

  pub ScopeIn : Program → WorkflowScope → Type 0
  ScopeIn p (workflow_scope l ss) = StatementsIn p ss

  pub BlockIn : Program → ConditionBlock → Type 0
  BlockIn p (condition_block l condition s) = ExpressionIn p condition × ScopeIn p s

  pub BlocksIn : Program → ConditionBlocks → Type 0
  BlocksIn p no_block = Unit {0}
  BlocksIn p (block (condition_block l condition s) bs) = ExpressionIn p condition × BlocksIn p bs

  pub IfBlockIn : Program → IfBlock → Type 0
  IfBlockIn p (if_block l b bs s) = BlockIn p b × BlocksIn p bs × ScopeIn p s

module _ (J : Json) (p : Program) where
  slice_to_json-total :
      (key : String) (l : Located) → InCode p l → (v : J.Value) × (slice_to_json J p key l ≡ some v)
  unfolding slice_to_json
  slice_to_json-total key l h =
      Succeeds-bind (get_code p l) _ (get_code-total p l h) (λ t. (_, refl))

  signature_to_str-total :
      (s : Option Signature) → SignatureIn p s → (t : String) × (signature_to_str p s ≡ some t)
  unfolding signature_to_str
  signature_to_str-total none h = (_, refl)
  signature_to_str-total (some s) h = get_code-total p s.position h

  arguments_to_json-total :
      (o : J.Object) (e : Option Expression)
      → OptionIn p e
      → (v : J.Object) × (arguments_to_json J p o e ≡ some v)
  unfolding arguments_to_json expression_to_json
  arguments_to_json-total o none h = (_, refl)
  arguments_to_json-total o (some e) h =
      Succeeds-bind (expression_to_json J p e) _
        (slice_to_json-total "expression" (expression_position e) h) (λ v. (_, refl))

  declaration_to_json-total :
      (s : VariableDeclaration)
      → OptionIn p s.expression
      → (v : J.Value) × (declaration_to_json J p s ≡ some v)
  unfolding declaration_to_json
  declaration_to_json-total s h =
      Succeeds-bind (arguments_to_json J p _ s.expression) _
        (arguments_to_json-total _ s.expression h) (λ v. (_, refl))

  assignment_to_json-total :
      (s : AssignmentStatement)
      → InCode p s.path.position
      → ExpressionIn p s.expression
      → (v : J.Value) × (assignment_to_json J p s ≡ some v)
  unfolding assignment_to_json
  assignment_to_json-total s h k =
      Succeeds-bind (get_code p s.path.position) _ (get_code-total p s.path.position h) (λ name.
        Succeeds-bind (get_code p (expression_position s.expression)) _
          (get_code-total p (expression_position s.expression) k) (λ value. (_, refl)))

  condition_to_json-total :
      (c : Expression) (s : J.Value)
      → ExpressionIn p c
      → (v : J.Value) × (condition_to_json J p c s ≡ some v)
  unfolding condition_to_json
  condition_to_json-total c s h =
      Succeeds-bind (get_code p (expression_position c)) _
        (get_code-total p (expression_position c) h) (λ code. (_, refl))

  elif_blocks_to_json-total :
      (s : J.Value) (bs : ConditionBlocks)
      → BlocksIn p bs
      → (vs : List J.Value) × (elif_blocks_to_json J p s bs ≡ some vs)
  unfolding elif_blocks_to_json BlocksIn
  elif_blocks_to_json-total s no_block h = ([], refl)
  elif_blocks_to_json-total s (block (condition_block l c own) bs) h =
      let (v, e) = condition_to_json-total c s h.0 in
      let (vs, es) = elif_blocks_to_json-total s bs h.1 in (v ∷ vs, rw (e, es))

  pub elif_to_json-total :
      (s : J.Value) (bs : ConditionBlocks) (o : J.Object)
      → BlocksIn p bs
      → (o' : J.Object) × (elif_to_json J p s bs o ≡ some o')
        × ((v : J.Value) → J.put o' "elif" v ≡ J.put o "elif" v)
  unfolding elif_to_json
  elif_to_json-total s no_block o h = (o, refl, λ v. refl)
  elif_to_json-total s (block b bs) o h =
      let (vs, e) = elif_blocks_to_json-total s (block b bs) h in
      (J.put o "elif" (J.of_array vs), rw e, λ v. J.put_twice o "elif" _ v)

  -- The values of a list of statements, one for each, in order.
  pub data Exported : WorkflowStatements → List J.Value → Type 0 where
    nothing : Exported no_statement []
    next :
        {s : WorkflowStatement} {ss : WorkflowStatements} {v : J.Value} {vs : List J.Value}
        → statement_to_json J p s ≡ some v
        → Exported ss vs
        → Exported (statement s ss) (v ∷ vs)

  mutual
    unfolding statement_to_json StatementIn import_to_json delay_to_json return_to_json
        raise_to_json expression_to_json

    statement_to_json-total :
        (s : WorkflowStatement)
        → StatementIn p s
        → (v : J.Value) × (statement_to_json J p s ≡ some v)
    statement_to_json-total (import_statement s) h = slice_to_json-total _ _ h
    statement_to_json-total (variable_declaration s) h = declaration_to_json-total s h
    statement_to_json-total (assignment_statement s) h = assignment_to_json-total s h.0 h.1
    statement_to_json-total (delay_statement s) h = slice_to_json-total _ _ h
    statement_to_json-total (return_statement s) h = slice_to_json-total _ _ h
    statement_to_json-total (raise_statement s) h = slice_to_json-total _ _ h
    statement_to_json-total (break_statement s) h = (_, refl)
    statement_to_json-total (expression_statement e) h = slice_to_json-total _ _ h
    statement_to_json-total (if_statement b) h = if_block_to_json-total b h
    statement_to_json-total (repeat_statement b) h = repeat_block_to_json-total b h
    statement_to_json-total (definition_statement d) h = definition_to_json-total d h

    statements_to_json-total :
        (ss : WorkflowStatements)
        → StatementsIn p ss
        → (vs : List J.Value) × (statements_to_json J p ss ≡ some vs) × Exported ss vs
    statements_to_json-total no_statement h = ([], refl, nothing)
    statements_to_json-total (statement s ss) h =
        let (v, e) = statement_to_json-total s h.0 in
        let (vs, es, all) = statements_to_json-total ss h.1 in (v ∷ vs, rw (e, es), next e all)

    scope_to_json-total :
        (s : WorkflowScope) → ScopeIn p s → (v : J.Value) × (scope_to_json J p s ≡ some v)
    scope_to_json-total (workflow_scope l ss) h =
        let (vs, e, all) = statements_to_json-total ss h in (J.of_array vs, rw e)

    else_to_json-total :
        (s : WorkflowScope) (o : J.Object)
        → ScopeIn p s
        → (o' : J.Object) × (else_to_json J p s o ≡ some o')
    else_to_json-total (workflow_scope l no_statement) o h = (o, refl)
    else_to_json-total (workflow_scope l (statement s ss)) o h =
        let (v, e) = statement_to_json-total s h.0 in
        let (vs, es, all) = statements_to_json-total ss h.1 in
        (
          J.put o "elif" (J.of_object (J.put J.no_entries "statements" (J.of_array (v ∷ vs)))),
          rw (e, es),
        )

    if_block_to_json-total :
        (b : IfBlock) → IfBlockIn p b → (v : J.Value) × (if_block_to_json J p b ≡ some v)
    if_block_to_json-total (if_block l (condition_block k c own) elifs els) h =
        let (statements, e₁) = scope_to_json-total own h.0.1 in
        let (if_json, e₂) = condition_to_json-total c statements h.0.0 in
        let (o, e₃, _) =
          elif_to_json-total statements elifs (J.put J.no_entries "if" if_json) h.1 in
        let (o', e₄) = else_to_json-total els o h.2 in
        (J.of_object (J.put J.no_entries "conditional" (J.of_object o')), rw (e₁, e₂, e₃, e₄))

    repeat_block_to_json-total :
        (b : RepeatBlock)
        → StatementIn p (repeat_statement b)
        → (v : J.Value) × (repeat_block_to_json J p b ≡ some v)
    repeat_block_to_json-total (repeat_block l s) h =
        let (v, e) = scope_to_json-total s h in (J.of_object (J.put J.no_entries "repeat" v), rw e)

    definition_to_json-total :
        (d : WorkflowDefinition)
        → StatementIn p (definition_statement d)
        → (v : J.Value) × (definition_to_json J p d ≡ some v)
    definition_to_json-total (workflow_definition l name s w) h =
        let (t, e) = signature_to_str-total s h.0 in
        let (v, f) = scope_to_json-total w h.1 in
        (
          J.of_object (
              J.put J.no_entries "workflow" (
                J.of_object (
                  J.put
                    (J.put (J.put J.no_entries "name" (J.of_string name.text)) "signature"
                      (J.of_string t))
                    "statements" v))),
          rw (e, f),
        )

  -- If every location that is printed starts within the code, the export of a program ends without
  -- an exception, and is the array of one value for each statement, in order.
  pub program_to_json-total :
      (a : ProgramAst)
      → StatementsIn p a.statements
      → (vs : List J.Value) × (program_to_json J p a ≡ some (J.of_array vs))
        × Exported a.statements vs
  unfolding program_to_json
  program_to_json-total a h =
      let (vs, e, all) = statements_to_json-total a.statements h in (vs, rw e, all)

  -- Where the `else` block has a statement, the export of a conditional is the same as without its
  -- `elif` blocks: the `else` block takes their key.
  pub if_block_to_json-drops-elif :
      (l k m : Located) (c : Expression) (own : WorkflowScope) (elifs : ConditionBlocks)
      (s : WorkflowStatement) (ss : WorkflowStatements)
      → let els = workflow_scope m (statement s ss) in
        IfBlockIn p (if_block l (condition_block k c own) elifs els)
        → if_block_to_json J p (if_block l (condition_block k c own) elifs els)
          ≡ if_block_to_json J p (if_block l (condition_block k c own) no_block els)
  unfolding if_block_to_json elif_to_json IfBlockIn
  if_block_to_json-drops-elif l k m c own elifs s ss h =
      let (statements, e₁) = scope_to_json-total own h.0.1 in
      let (if_json, e₂) = condition_to_json-total c statements h.0.0 in
      let start = J.put J.no_entries "if" if_json in
      let (o, e₃, same) = elif_to_json-total statements elifs start h.1 in
      let (v, e₄) = statement_to_json-total s h.2.0 in
      let (vs, e₅, _) = statements_to_json-total ss h.2.1 in rw (e₁, e₂, e₃, e₄, e₅, same)
