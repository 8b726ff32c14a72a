-- ===== src/Reporting/Report/Logging.antt =====
-- `log` of src/libs/core/src/reporting/ExecutionReport.cpp, and the ExecutionLogMessageBuilder that
-- logs its message when it is destroyed. A moved builder has no report.
use Prim.Native.String.{String, ◌++◌ as join}
use ez_cpp.Prelude.{
  ℕ, ◌-◌, ◌≡◌, ◌≢◌, refl, ap, sym, ◌∙◌, subst, false, Option, none, some, List, [], ◌∷◌, ◌++◌,
  foldl, map, length, Bool, true,
}
use ez_cpp.Reporting.Types.{
  ExecutionLogCategory, ExecutionEventType, ExecutionEvent, ExecutionLogMessage,
}
use ez_cpp.Reporting.Store.{message, ExecutionReportData, World, Call, read, links_of, links}
use ez_cpp.Reporting.Store.Frame.{update_lem, map-set}
use ez_cpp.Reporting.Store.Hierarchy.{IsAcyclic}
use ez_cpp.Reporting.Report.{calls_of, note_category, log}
use ez_cpp.Reporting.Report.Notices.{NoticesAbove, notify-calls}

pub record ExecutionLogMessageBuilder : Type 0 where
  pub report : Option ℕ
  pub message : ExecutionLogMessage

-- `operator<<` of a message and of a builder.
unfoldable pub append_text : ExecutionLogMessage → String → ExecutionLogMessage
append_text m text = record m { body = join m.body text }

unfoldable pub add_fragment : ExecutionLogMessageBuilder → String → ExecutionLogMessageBuilder
unfolding append_text
add_fragment b text = record b { message = append_text b.message text }

-- The constructor, which `info`, `warning`, `error`, `success` and `debug` call.
unfoldable pub make_builder : ℕ → ExecutionLogCategory → String → ExecutionLogMessageBuilder
make_builder r category header = record {
  report = some r;
  message = record { header = header; body = ""; category = category; is_notification = false };
}

unfoldable pub info : ℕ → String → ExecutionLogMessageBuilder
unfolding make_builder
info r header = make_builder r ExecutionLogCategory.info header

unfoldable pub warning : ℕ → String → ExecutionLogMessageBuilder
unfolding make_builder
warning r header = make_builder r ExecutionLogCategory.warning header

unfoldable pub error : ℕ → String → ExecutionLogMessageBuilder
unfolding make_builder
error r header = make_builder r ExecutionLogCategory.error header

unfoldable pub success : ℕ → String → ExecutionLogMessageBuilder
unfolding make_builder
success r header = make_builder r ExecutionLogCategory.success header

unfoldable pub debug : ℕ → String → ExecutionLogMessageBuilder
unfolding make_builder
debug r header = make_builder r ExecutionLogCategory.debug header

-- The builder that was moved to, and what is left of the other.
unfoldable pub move_builder :
    ExecutionLogMessageBuilder → ExecutionLogMessageBuilder × ExecutionLogMessageBuilder
move_builder rhs = (rhs, record rhs { report = none })

unfoldable pub destroy_builder : ExecutionLogMessageBuilder → World → Option World
destroy_builder b w = elim b.report [ none ↦ some w | some r ↦ log b.message r w ]

note_category-links :
    (c : ExecutionLogCategory) (d : ExecutionReportData) → links_of (note_category c d) ≡ links_of d
note_category-links ExecutionLogCategory.info d = refl
note_category-links ExecutionLogCategory.warning d = refl
note_category-links ExecutionLogCategory.error d = refl
note_category-links ExecutionLogCategory.success d = refl
note_category-links ExecutionLogCategory.debug d = refl

-- The report `d` as `log` writes it.
abbrev appended : ℕ → ExecutionLogMessage → ExecutionReportData → ExecutionReportData
appended r msg d =
    let noted = note_category msg.category d in
    record noted {
      messages = noted.messages ++ msg ∷ [];
      subitems = noted.subitems ++ message r (length noted.messages) ∷ [];
    }

-- The flags of a report after a message of a category: an error raises the one, a warning the other.
abbrev pub error_after : ExecutionLogCategory → Bool → Bool
error_after ExecutionLogCategory.error before = true
error_after ExecutionLogCategory.warning before = before
error_after ExecutionLogCategory.info before = before
error_after ExecutionLogCategory.success before = before
error_after ExecutionLogCategory.debug before = before

abbrev pub warning_after : ExecutionLogCategory → Bool → Bool
warning_after ExecutionLogCategory.error before = before
warning_after ExecutionLogCategory.warning before = true
warning_after ExecutionLogCategory.info before = before
warning_after ExecutionLogCategory.success before = before
warning_after ExecutionLogCategory.debug before = before

-- The report `d` with one more message, which a new sub item names.
abbrev pub with_message : ℕ → ExecutionLogMessage → ExecutionReportData → ExecutionReportData
with_message r msg d = record d {
  messages = d.messages ++ msg ∷ [];
  subitems = d.subitems ++ message r (length d.messages) ∷ [];
  error_logged = error_after msg.category d.error_logged;
  warning_logged = warning_after msg.category d.warning_logged;
}

noted-eq :
    (c : ExecutionLogCategory) (d : ExecutionReportData)
    → note_category c d ≡ record d {
      error_logged = error_after c d.error_logged;
      warning_logged = warning_after c d.warning_logged;
    }
noted-eq ExecutionLogCategory.info d = refl
noted-eq ExecutionLogCategory.warning d = refl
noted-eq ExecutionLogCategory.error d = refl
noted-eq ExecutionLogCategory.success d = refl
noted-eq ExecutionLogCategory.debug d = refl

appended-eq :
    (r : ℕ) (msg : ExecutionLogMessage) (d : ExecutionReportData)
    → appended r msg d ≡ with_message r msg d
appended-eq r msg d =
    ap
      (λ (noted : ExecutionReportData). record noted {
        messages = noted.messages ++ msg ∷ [];
        subitems = noted.subitems ++ message r (length noted.messages) ∷ [];
      })
      (noted-eq msg.category d)

-- `log` has written the report `x`, changed no other one, and called the observers.
abbrev pub Logs : ExecutionLogMessage → ℕ → World → ExecutionReportData → Type 0
Logs msg r w x =
    let event : ExecutionEvent = record {
      type = ExecutionEventType.message_added;
      index = some (length x.subitems - 1);
    } in
    (w₁ : World) × (cs : List Call) × (read r w₁ ≡ some x)
    × ((i : ℕ) → r ≢ i → read i w₁ ≡ read i w)
    × NoticesAbove w₁ r event x.parent cs
    × (log msg r w ≡ some (record w₁ { calls = w.calls ++ calls_of r event x.observers ++ cs }))

log-writes :
    (depth : ℕ → ℕ) (msg : ExecutionLogMessage) (r : ℕ) (w : World) (d : ExecutionReportData)
    → IsAcyclic depth (links w)
    → read r w ≡ some d
    → Logs msg r w (appended r msg d)
unfolding log
log-writes depth msg r w d a e =
    let noted = note_category msg.category d in
    let (w₀, runs₀, (written₀, elsewhere₀, reports₀, calls₀)) =
      update_lem r (note_category msg.category) w d e in
    let same₀ : links w₀ ≡ links w =
      ap (map links_of) reports₀
      ∙ map-set links_of w.reports r d noted e (note_category-links msg.category d) in
    let (w₁, runs₁, (written₁, elsewhere₁, reports₁, calls₁)) =
      update_lem r
        (λ d. record d {
          messages = d.messages ++ msg ∷ [];
          subitems = d.subitems ++ message r (length d.messages) ∷ [];
        })
        w₀ noted written₀ in
    let same₁ : links w₁ ≡ links w₀ =
      ap (map links_of) reports₁
      ∙ map-set links_of w₀.reports r noted (appended r msg d) written₀ refl in
    let (cs, spec, runs) =
      notify-calls depth ExecutionEventType.message_added
        (some (length (appended r msg d).subitems - 1)) r w₁ (appended r msg d)
        (subst (IsAcyclic depth) (sym (same₁ ∙ same₀)) a) written₁ in
    (
      w₁,
      cs,
      written₁,
      λ i ne. elsewhere₁ i ne ∙ elsewhere₀ i ne,
      spec,
      rw (runs₀, runs₁, written₁, runs, calls₁, calls₀),
    )

pub log-appends :
    (depth : ℕ → ℕ) (msg : ExecutionLogMessage) (r : ℕ) (w : World) (d : ExecutionReportData)
    → IsAcyclic depth (links w)
    → read r w ≡ some d
    → Logs msg r w (with_message r msg d)
log-appends depth msg r w d a e =
    subst (Logs msg r w) (appended-eq r msg d) (log-writes depth msg r w d a e)

-- The text of fragments, one after the other.
abbrev pub join_all : String → List String → String
join_all s [] = s
join_all s (t ∷ ts) = join_all (join s t) ts

add_fragments :
    (b : ExecutionLogMessageBuilder) (ts : List String)
    → foldl add_fragment b ts
      ≡ record b { message = record b.message { body = join_all b.message.body ts } }
unfolding add_fragment
add_fragments b [] = refl
add_fragments b (t ∷ ts) = add_fragments (add_fragment b t) ts

-- Any fragments that are added to a builder are logged as one message with their joined text when
-- it is destroyed, and the builder that was moved from logs nothing.
pub destroy_builder-logs :
    (r : ℕ) (category : ExecutionLogCategory) (header : String) (ts : List String) (w : World)
    → (destroy_builder (foldl add_fragment (make_builder r category header) ts) w
        ≡ log
            (record {
              header = header;
              body = join_all "" ts;
              category = category;
              is_notification = false;
            })
            r
            w)
      × (destroy_builder (move_builder (foldl add_fragment (make_builder r category header) ts)).1 w
          ≡ some w)
unfolding destroy_builder move_builder make_builder
destroy_builder-logs r category header ts w =
    (rw (add_fragments (make_builder r category header) ts) refl, refl)
