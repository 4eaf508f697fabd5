-- ===== src/Manager/Quiet.antt =====
-- What sending leaves alone: everything but what was sent and which endpoints can send.
use mcsb.Base.{
  ℕ, ◌≡◌, refl, ap, sym, fun_ext, ◌∙◌, ◌==◌, ==_iff, true, false, [], ◌∷◌, update, Bool-cases, inl,
  inr, Outcome, ok, and_then,
}
use mcsb.Manager.{Manager, Env, Message, get_proxy, put_proxy, caught, send_on}

-- A manager, up to what was sent and which endpoints can send.
abbrev pub unsent : Manager → Manager
unsent m = record m {
  arg = record m.arg { proxy = λ p. record (m.arg.proxy p) { connected = true }; sent = [] };
}

-- An outcome that returns and has only sent.
abbrev pub OnlySends : Manager → Outcome Manager (Unit {0}) → Type 0
OnlySends m o = (m' : Manager) × (o ≡ ok tt m') × (unsent m' ≡ unsent m)

unsent-disconnect :
    (p : ℕ) (m : Manager)
    → unsent (put_proxy p (record (get_proxy p m) { connected = false }) m) ≡ unsent m
unsent-disconnect p m =
    ap (λ f. record m { arg = record m.arg { proxy = f; sent = [] } }) (fun_ext (λ i. same i))
  where
    same :
        (i : ℕ)
        → record (update m.arg.proxy p (record (get_proxy p m) { connected = false }) i) {
          connected = true;
        }
          ≡ record (m.arg.proxy i) { connected = true }
    same i = elim (Bool-cases (i == p)) [
      | inl e ↦
          rw e (ap (λ j. record (m.arg.proxy j) { connected = true }) (sym ((==_iff i p).0 e)))
      | inr e ↦ rw e refl
    ]

pub send_on-OnlySends :
    (env : Env) (p q : ℕ) (msg : Message) (m : Manager)
    → OnlySends m (caught (send_on env p q msg m))
unfolding send_on
send_on-OnlySends env p q msg m = elim (Bool-cases (get_proxy p m).connected) [
  | inr off ↦ (m, rw off refl, refl)
  | inl on ↦ elim (Bool-cases (env.refuses m.arg.sent q msg)) [
    | inl no_room ↦ (
      put_proxy p (record (get_proxy p m) { connected = false }) m,
      rw on (rw no_room refl),
      unsent-disconnect p m,
    )
    | inr room ↦ (
      record m { arg = record m.arg { sent = (q, msg) ∷ m.arg.sent } },
      rw on (rw room refl),
      refl,
    )
  ]
]

-- One thing after another.
pub and_then-OnlySends :
    (m : Manager) (o : Outcome Manager (Unit {0}))
    (f : Unit {0} → Manager → Outcome Manager (Unit {0}))
    → OnlySends m o
    → ((m' : Manager) → OnlySends m' (f tt m'))
    → OnlySends m (and_then o f)
and_then-OnlySends m o f (m1, e, same) next =
    let (m2, e2, same2) = next m1 in (m2, rw e e2, same2 ∙ same)
