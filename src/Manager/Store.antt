-- ===== src/Manager/Store.antt =====
-- Proxies read back from the store.
use mcsb.Base.{ℕ, ◌≡◌, ap, ◌==◌, ==_refl, false, if◌then◌else◌}
use mcsb.Manager.{Manager, ClientProxy, get_proxy, put_proxy}

pub get_proxy-put_self : (p : ℕ) (x : ClientProxy) (m : Manager) → get_proxy p (put_proxy p x m) ≡ x
get_proxy-put_self p x m = ap (λ b. if b then x else get_proxy p m) (==_refl p)

pub get_proxy-put_ne :
    (p q : ℕ) (x : ClientProxy) (m : Manager)
    → (q == p) ≡ false
    → get_proxy q (put_proxy p x m) ≡ get_proxy q m
get_proxy-put_ne p q x m other = ap (λ b. if b then x else get_proxy q m) other
