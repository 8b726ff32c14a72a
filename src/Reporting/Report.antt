-- ===== src/Reporting/Report.antt =====
-- ExecutionReport of src/libs/core/src/reporting/ExecutionReport.cpp: making and joining reports, their
-- plain fields, observers, notification and logging.
pub mod Notices
pub mod Logging
pub mod Items
use ez_cpp.Prelude.{
  ℕ, zero, suc, ◌+◌, ◌-◌, String, Bool, true, false, Option, none, some, List, [], ◌∷◌, ◌++◌, map,
  if◌then◌else◌, ◌==◌, ltb, ◌>>=◌, length, get_elem?,
}
use ez_cpp.Prelude.Int.{ℤ, pos, negsuc}
use ez_cpp.Reporting.Types.{
  ExecutionLogCategory, ExecutionEventType, ExecutionEvent, ExecutionLogMessage,
}
use ez_cpp.Reporting.Store.{
  ExecutionReportItem, message, report, ExecutionReportData, Call, World, new_report_data, read,
  update,
}

-- `ExecutionReport(in_place)`: a fresh report, and its address.
unfoldable pub create : World → ℕ × World
create w = (length w.reports, record w { reports = w.reports ++ new_report_data ∷ [] })

unfoldable pub is_root : ℕ → World → Option Bool
is_root r w = do d ← read r w; some (elim d.parent [ none ↦ true | some p ↦ false ])

unfoldable pub set_name : String → ℕ → World → Option World
set_name name r = update r (λ d. record d { name = name })

unfoldable pub set_description : String → ℕ → World → Option World
set_description text r = update r (λ d. record d { description = text })

unfoldable pub set_id : ℕ → ℕ → World → Option World
set_id id r = update r (λ d. record d { id = id })

unfoldable pub set_flags : ℕ → ℕ → World → Option World
set_flags flags r = update r (λ d. record d { flags = flags })

-- The clock is read by the caller.
unfoldable pub set_start_time : ℕ → ℕ → World → Option World
set_start_time now r = update r (λ d. record d { start_time = now })

unfoldable pub set_end_time : ℕ → ℕ → World → Option World
set_end_time now r = update r (λ d. record d { end_time = now })

unfoldable pub set_progress_weight : ℕ → ℕ → World → Option World
set_progress_weight weight r = update r (λ d. record d { progress_weight_in_parent = weight })

unfoldable pub exclude_from_parent_progress : ℕ → World → Option World
exclude_from_parent_progress = set_progress_weight 0

-- `std::map::insert`, which keeps an entry that is there, and `std::map::erase`.
unfoldable pub insert_observer : ℕ → ℕ → List (ℕ × ℕ) → List (ℕ × ℕ)
insert_observer id obs [] = (id, obs) ∷ []
insert_observer id obs ((j, o) ∷ m) =
    if ltb id j
    then (id, obs) ∷ (j, o) ∷ m
    else if id == j
    then (j, o) ∷ m
    else (j, o) ∷ insert_observer id obs m

unfoldable pub erase_observer : ℕ → List (ℕ × ℕ) → List (ℕ × ℕ)
erase_observer id [] = []
erase_observer id ((j, o) ∷ m) = if j == id then m else (j, o) ∷ erase_observer id m

-- The id is the counter's value, and the result.
unfoldable pub add_observer : ℕ → ℕ → World → Option (ℕ × World)
add_observer obs r w = do
  d ← read r w
  let id = d.next_observer_id
  w' ←
      update r
        (λ d. record d {
          next_observer_id = id + 1;
          observers = insert_observer id obs d.observers;
        })
        w
  some (id, w')

unfoldable pub has_observers : ℕ → World → Option Bool
has_observers r w = do d ← read r w; some (elim d.observers [ [] ↦ false | o ∷ m ↦ true ])

-- The invalid id, -1, names no observer.
unfoldable pub remove_observer : ℤ → ℕ → World → Option World
remove_observer (pos id) r = update r (λ d. record d { observers = erase_observer id d.observers })
remove_observer (negsuc n) r = update r (λ d. d)

-- One observer is called after the other, in the order of their ids.
abbrev pub calls_of : ℕ → ExecutionEvent → List (ℕ × ℕ) → List Call
calls_of self event = map (λ e. record { observer = e.1; report = self; event = event })

-- The loop of `notify` over the parents, with a bound on its rounds.
unfoldable pub notices_above : ℕ → Option ℕ → ℕ → ExecutionEvent → World → Option (List Call)
notices_above rounds none self event w = some []
notices_above zero (some p) self event w = none
notices_above (suc rounds) (some p) self event w = do
  d ← read p w
  rest ← notices_above rounds d.parent self event w
  some (calls_of self event d.observers ++ rest)

-- A chain of parents without a cycle has fewer reports than the store.
unfoldable pub notify : ExecutionEventType → Option ℕ → ℕ → World → Option World
notify type index self w = do
  d ← read self w
  let event : ExecutionEvent = record { type = type; index = index }
  above ← notices_above (length w.reports) d.parent self event w
  some (record w { calls = w.calls ++ calls_of self event d.observers ++ above })

-- The parent is set first: the item takes the parent's address from the sub report's data.
unfoldable pub add_sub_report : ℕ → ℕ → World → Option World
add_sub_report ctx r w = do
  w ← update ctx (λ d. record d { parent = some r }) w
  w ←
      update r
        (λ d. record d {
          sub_reports = d.sub_reports ++ ctx ∷ [];
          subitems = d.subitems ++ report ctx (some r) ∷ [];
        })
        w
  d ← read r w
  notify ExecutionEventType.sub_report_added (some (length d.subitems - 1)) r w

-- `create_sub_report`, with no arguments for the new report.
unfoldable pub create_sub_report : ℕ → World → Option (ℕ × World)
create_sub_report r w =
    let (ctx, w') = create w in (do w'' ← add_sub_report ctx r w'; some (ctx, w''))

-- What `log` notes for the status guard.
abbrev pub note_category : ExecutionLogCategory → ExecutionReportData → ExecutionReportData
note_category ExecutionLogCategory.warning d = record d { warning_logged = true }
note_category ExecutionLogCategory.error d = record d { error_logged = true }
note_category _ d = d

unfoldable pub log : ExecutionLogMessage → ℕ → World → Option World
log msg r w = do
  w ← update r (note_category msg.category) w
  w ←
      update r
        (λ d. record d {
          messages = d.messages ++ msg ∷ [];
          subitems = d.subitems ++ message r (length d.messages) ∷ [];
        })
        w
  d ← read r w
  notify ExecutionEventType.message_added (some (length d.subitems - 1)) r w
