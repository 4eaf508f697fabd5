-- ===== src/DropReporter/Tests.antt =====
-- The drop reporter's theorem on a history with two reports.
use mcsb.Base.{List, [], ◌∷◌, arith}
use mcsb.DropReporter.{
  Event, drop_event, ack_event, report_event, reset_reporter, start_totals, run_events, Balanced,
  run_events-Balanced,
}

abbrev history : List Event
history =
    drop_event 3 64
    ∷ report_event
    ∷ drop_event 1 8
    ∷ report_event
    ∷ ack_event
    ∷ report_event
    ∷ drop_event 2 0
    ∷ []

run_events-Balanced_example :
    Balanced
      (run_events history (reset_reporter, start_totals)).0
      (run_events history (reset_reporter, start_totals)).1
run_events-Balanced_example = run_events-Balanced history (omega arith)
