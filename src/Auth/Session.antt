-- ===== src/Auth/Session.antt =====
-- What signing in and out leaves behind.
use bastiondeck.Prelude.{Bool, true, false, none, some, [], Text, ◌≡◌, refl}
use bastiondeck.Hooks.{Outcome, ok, fail}
use bastiondeck.Auth.{Auth, Me, mount, setup, logout}
use bastiondeck.Auth.Guard.{connecting, through, gate}

-- After a logout, whether or not the server took it and whatever it answers for its status, if it no
-- longer knows the session, then the token, the user and the permissions are gone.
logout_lem :
    (o : Outcome (Unit {0})) (st : Outcome Bool) (why : Text) (s : Auth)
    → let done = logout o (record { status = st; me = fail why }) s in
      (done.0.token ≡ none) × (done.0.user ≡ none) × (done.0.permissions ≡ [])
unfolding logout
logout_lem o (fail m) why s = (refl, refl, refl)
logout_lem o (ok true) why s = (refl, refl, refl)
logout_lem o (ok false) why s = (refl, refl, refl)

-- On a page that has finished loading, a first setup that the server takes, and whose login it takes,
-- ends behind the gate, as the user that the server names and with the token of the login.
gate-setup :
    (t : Text) (me : Me) (s : Auth)
    → s.loading ≡ false
    → let done = setup (ok tt) (ok t) (record { status = ok false; me = ok me }) s in
      (gate done.0 ≡ through) × (done.0.user ≡ some me.user) × (done.0.token ≡ some t)
unfolding setup gate
gate-setup t me s h = (simp h, refl, refl)

-- If the call for the status on mount fails and no status was known, the gate shows "connecting",
-- although the page has finished loading.
gate-mount_failed :
    (m : Text) (me : Outcome Me) (s : Auth)
    → s.setup_required ≡ none
    → let s' = mount (record { status = fail m; me = me }) s in
      (gate s' ≡ connecting) × (s'.loading ≡ false)
unfolding mount gate
gate-mount_failed m me s h = (simp h, refl)
