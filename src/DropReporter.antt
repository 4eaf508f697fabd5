-- ===== src/DropReporter.antt =====
-- apps/MCSBManager/DropReporter.cc and apps/MCSBManager/MCSB/DropReporter.h: the segments and bytes that a client has
-- missed, until they are reported to it.
use mcsb.Base.{
  ℕ, ◌+◌, ◌-◌, ◌*◌, ◌≤◌, ◌<◌, ◌^◌, ◌≡◌, refl, Bool, true, false, not, ◌&&◌, ◌||◌, List, [], ◌∷◌,
  Option, none, some, arith, ltb, ◌==◌, if◌then◌else◌, u64, min, sym, subst, inl, inr, Bool-cases,
}
mod Tests

pub record DropReporter : Type 0 where
  pub need_report : Bool
  pub throttle : Bool
  pub segs_dropped : ℕ
  pub bytes_dropped : ℕ

-- `Reset`, which the constructor calls too.
abbrev pub reset_reporter : DropReporter
reset_reporter = record {
  need_report = false;
  throttle = false;
  segs_dropped = 0;
  bytes_dropped = 0;
}

pub dropped : ℕ → ℕ → DropReporter → DropReporter
dropped segs bytes r = if segs == 0 && bytes == 0 then r else record {
  need_report = true;
  throttle = r.throttle;
  segs_dropped = u64 (r.segs_dropped + segs);
  bytes_dropped = u64 (r.bytes_dropped + bytes);
}

pub ack : DropReporter → DropReporter
ack r = record r { throttle = false }

abbrev pub max32 : ℕ
max32 = 2 ^ 32 - 1

pub get_report : DropReporter → Option (ℕ × ℕ) × DropReporter
get_report r = if not r.need_report || r.throttle then (none, r) else (
  some (
    if ltb max32 r.segs_dropped then max32 else r.segs_dropped,
    if ltb max32 r.bytes_dropped then max32 else r.bytes_dropped,
  ),
  record reset_reporter { throttle = true },
)

-- What the manager does with a reporter.
pub data Event : Type 0 where
  drop_event : ℕ → ℕ → Event
  ack_event : Event
  report_event : Event

-- The totals of a history: what was dropped, what was reported, and the reporter at the end.
pub record Totals : Type 0 where
  pub drops : ℕ
  pub reported : ℕ
  pub open_reports : ℕ

-- The totals after a request for a report.
abbrev pub told : Option (ℕ × ℕ) → DropReporter → Totals → DropReporter × Totals
told none r t = (r, t)
told (some (segs, bytes)) r t =
    (r, record t { reported = t.reported + segs; open_reports = t.open_reports + 1 })

told-drops : (o : Option (ℕ × ℕ)) (r : DropReporter) (t : Totals) → (told o r t).1.drops ≡ t.drops
told-drops none r t = refl
told-drops (some (segs, bytes)) r t = refl

pub run_events : List Event → DropReporter × Totals → DropReporter × Totals
unfolding dropped ack get_report
run_events [] s = s
run_events (drop_event segs bytes ∷ es) (r, t) =
    run_events es (dropped segs bytes r, record t { drops = t.drops + segs })
run_events (ack_event ∷ es) (r, t) = run_events es (ack r, record t { open_reports = 0 })
run_events (report_event ∷ es) (r, t) = run_events es (told (get_report r).0 (get_report r).1 t)

-- What is reported and what waits is no more than what was dropped, and just that if the drops fit
-- in 32 bits; a reporter that has nothing to report has no drops; between two acknowledgements there
-- is one report at most, and the reporter is throttled behind it.
abbrev pub Balanced : DropReporter → Totals → Type 0
Balanced r t =
    (t.reported + r.segs_dropped ≤ t.drops)
    × (t.drops ≤ max32 → t.reported + r.segs_dropped ≡ t.drops)
    × (t.open_reports ≤ 1)
    × (t.open_reports ≡ 1 → r.throttle ≡ true)
    × (r.need_report ≡ false → r.segs_dropped ≡ 0)

abbrev pub drops_of : List Event → ℕ
drops_of [] = 0
drops_of (drop_event segs bytes ∷ es) = segs + drops_of es
drops_of (ack_event ∷ es) = drops_of es
drops_of (report_event ∷ es) = drops_of es

after_drop :
    (segs bytes : ℕ) (r : DropReporter) (t : Totals)
    → t.drops + segs < 2 ^ 64
    → Balanced r t
    → Balanced (dropped segs bytes r) (record t { drops = t.drops + segs })
unfolding dropped
after_drop segs bytes r t small b = elim (Bool-cases (segs == 0 && bytes == 0)) [
  | inl nothing ↦ rw nothing (ground arith)
  | inr some_drops ↦ rw some_drops (ground arith)
]

-- Asking for a report.
abbrev pub ReportedBy : Option (ℕ × ℕ) → DropReporter → DropReporter → Totals → Type 0
ReportedBy none r r' t = r' ≡ r
ReportedBy (some (segs, bytes)) r r' t =
    Balanced r' (record t { reported = t.reported + segs; open_reports = t.open_reports + 1 })

after_report :
    (r : DropReporter) (t : Totals)
    → Balanced r t
    → ReportedBy (get_report r).0 r (get_report r).1 t
unfolding get_report
after_report r t b = elim (Bool-cases (not r.need_report || r.throttle)) [
  | inl quiet ↦ rw quiet refl
  | inr due ↦ rw due (ground arith)
]

from_report :
    (o : Option (ℕ × ℕ)) (es : List Event) (r r' : DropReporter) (t : Totals)
    → Balanced r t
    → ReportedBy o r r' t
    → Balanced (told o r' t).0 (told o r' t).1
from_report none es r r' t b h = subst (λ q. Balanced q t) (sym h) b
from_report (some (segs, bytes)) es r r' t b h = h

run_events-keeps :
    (es : List Event) (r : DropReporter) (t : Totals)
    → t.drops + drops_of es < 2 ^ 64
    → Balanced r t
    → Balanced (run_events es (r, t)).0 (run_events es (r, t)).1
unfolding run_events ack
run_events-keeps [] r t small b = b
run_events-keeps (drop_event segs bytes ∷ es) r t small b =
    run_events-keeps es _ _ (omega arith) (after_drop segs bytes r t (omega arith) b)
run_events-keeps (ack_event ∷ es) r t small b = run_events-keeps es _ _ small (ground arith)
run_events-keeps (report_event ∷ es) r t small b =
    run_events-keeps es (told (get_report r).0 (get_report r).1 t).0
      (told (get_report r).0 (get_report r).1 t).1
      (ground (arith, told-drops (get_report r).0 (get_report r).1 t))
      (from_report (get_report r).0 es r (get_report r).1 t b (after_report r t b))

abbrev pub start_totals : Totals
start_totals = record { drops = 0; reported = 0; open_reports = 0 }

-- In whatever order drops, acknowledgements and requests for a report come, with fewer than 2 ^ 64
-- dropped segments: what is reported and what waits is no more than what was dropped, and just that
-- if it fits in 32 bits, and between two acknowledgements there is one report at most.
pub run_events-Balanced :
    (es : List Event)
    → drops_of es < 2 ^ 64
    → Balanced
        (run_events es (reset_reporter, start_totals)).0
        (run_events es (reset_reporter, start_totals)).1
run_events-Balanced es small =
    run_events-keeps es reset_reporter start_totals (omega arith) (ground arith)
