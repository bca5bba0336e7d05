-- ===== src/Pages/Tunnels/Ports.antt =====
-- Which tunnels are asked for.
use Prim.Native.Nat.{zero, suc}
use bastiondeck.Prelude.{ℕ, ◌≤◌, Option, none, some, [], ◌∷◌, Text, ◌≡◌, ◌≢◌, ◌↔◌, refl, arith}
use bastiondeck.Prelude.Ints.{ℤ, pos, negsuc}
use bastiondeck.Hooks.{Outcome, ok, fail}
use bastiondeck.Pages.{calls_of}
use bastiondeck.Pages.Tunnels.{TunnelForm, port_of, host_of, tunnel_request, checked, create_tunnel}

-- A port that may be asked for.
abbrev pub IsPort : Option ℤ → ℕ → Type 0
IsPort o p = (o ≡ some (pos p)) × (1 ≤ p) × (p ≤ 65535)

port_of-IsPort : (o : Option ℤ) (p : ℕ) → port_of o ≡ some p → IsPort o p
port_of-IsPort none p h = absurd (cc)
port_of-IsPort (some (negsuc n)) p h = absurd (cc)
port_of-IsPort (some (pos zero)) p h = absurd (cc)
port_of-IsPort (some (pos (suc n))) p h = ground arith

port_of-IsPort' : (o : Option ℤ) (p : ℕ) → IsPort o p → port_of o ≡ some p
port_of-IsPort' o zero (e, low, high) = absurd (omega arith)
port_of-IsPort' o (suc n) (e, low, high) = rw e (ground arith)

-- A host that is chosen.
abbrev pub IsHost : Option Text → Text → Type 0
IsHost o h = (o ≡ some h) × (h ≢ [])

host_of-IsHost : (o : Option Text) (h : Text) → host_of o ≡ some h → IsHost o h
host_of-IsHost none h e = absurd (cc)
host_of-IsHost (some []) h e = absurd (cc)
host_of-IsHost (some (c ∷ s)) h e = (e, λ k. cc)

host_of-IsHost' : (o : Option Text) (h : Text) → IsHost o h → host_of o ≡ some h
host_of-IsHost' o [] (e, k) = absurd (k refl)
host_of-IsHost' o (c ∷ s) (e, k) = rw e refl

-- The form asks for the tunnel from `lp` at the host to `rp`.
abbrev pub AsksFor : TunnelForm → Text → ℕ → ℕ → Type 0
AsksFor f host lp rp = IsHost f.host_id host × IsPort f.local_port lp × IsPort f.remote_port rp

-- A form that names a host and two ports from 1 to 65535 is sent in one call, as it stands; it is
-- closed exactly if the server answers.
create_tunnel_sends :
    (o : Outcome (Unit {0})) (f : TunnelForm) (host : Text) (lp rp : ℕ)
    → AsksFor f host lp rp
    → (calls_of (create_tunnel o (some f)).1 ≡ tunnel_request f host lp rp ∷ [])
      × (((create_tunnel o (some f)).0 ≡ none) ↔ (o ≡ ok tt))
unfolding create_tunnel
create_tunnel_sends o f host lp rp (h, l, r) =
    rw
      (
        host_of-IsHost' f.host_id host h,
        port_of-IsPort' f.local_port lp l,
        port_of-IsPort' f.remote_port rp r,
      )
      (answered o)
  where
    answered :
        (o : Outcome (Unit {0}))
        → (calls_of (checked o f (some host) (some lp) (some rp)).1
            ≡ tunnel_request f host lp rp ∷ [])
          × (((checked o f (some host) (some lp) (some rp)).0 ≡ none) ↔ (o ≡ ok tt))
    answered (ok u) = (refl, (λ e. refl, λ e. refl))
    answered (fail m) = (refl, (λ e. cc, λ e. cc))

sent_only :
    (o : Outcome (Unit {0})) (f : TunnelForm) (h : Option Text) (l r : Option ℕ)
    → calls_of (checked o f h l r).1 ≢ []
    → (host : Text) × (lp : ℕ) × (rp : ℕ) × (h ≡ some host) × (l ≡ some lp) × (r ≡ some rp)
sent_only o f none l r k = absurd (k refl)
sent_only o f (some host) none r k = absurd (k refl)
sent_only o f (some host) (some lp) none k = absurd (k refl)
sent_only o f (some host) (some lp) (some rp) k = (host, lp, rp, refl, refl, refl)

-- A form is sent only if it names a host and two ports from 1 to 65535.
AsksFor-of_calls :
    (o : Outcome (Unit {0})) (f : TunnelForm)
    → calls_of (create_tunnel o (some f)).1 ≢ []
    → (host : Text) × (lp : ℕ) × (rp : ℕ) × AsksFor f host lp rp
unfolding create_tunnel
AsksFor-of_calls o f k =
    let (host, lp, rp, h, l, r) = sent_only o f _ _ _ k in
    (
      host,
      lp,
      rp,
      (
        host_of-IsHost f.host_id host h,
        port_of-IsPort f.local_port lp l,
        port_of-IsPort f.remote_port rp r,
      ),
    )
