-- ===== src/Vcan/Links.antt =====
-- What the helper does to the interfaces, given what the commands do to them.
use ferro_flow.Prelude.{
  ◌≡◌, ◌≢◌, ◌⊎◌, inl, inr, refl, ap, ◌∙◌, String, Bool, true, false, List, [], ◌∷◌, Option, none,
  some, Result, ok, err, string_eq, arith,
}
use ferro_flow.Vcan.Commands.{IsIp}
use ferro_flow.Vcan.{
  System, HelperError, not_set, not_read, missing_capability, not_raised, from_option, to_state,
  Call, continue, and_then, check, ran, is_ok_and_success, make_inheritable, create_unless,
  delete_if, cmd_status, iface_exists, ensure_cap_net_admin_ambient, up, down, exit_code, main,
  not_created, not_deleted, not_brought_up,
}

module _ (os : System) (links : os.State → String → Option Bool) (ip : IsIp os links) where
  open os use {State, run}

  -- A postcondition: it is asked of what a call leaves if it succeeds.
  abbrev Holds : {A : Type 0} → (A → State → Type 0) → Result HelperError A × State → Type 0
  Holds Q (ok a, s) = Q a s
  Holds Q (err e, s) = Unit

  continue-Holds :
      {A B : Type 0} (P : A → State → Type 0) (Q : B → State → Type 0)
      (r : Result HelperError A × State) (f : A → Call os B)
      → Holds P r
      → ((a : A) (s : State) → P a s → Holds Q (f a s))
      → Holds Q (continue os r f)
  continue-Holds P Q (ok a, s) f p h = h a s p
  continue-Holds P Q (err e, s) f p h = tt

  abbrev Same : State → State → Type 0
  Same s s' = (j : String) → links s' j ≡ links s j

  abbrev pub Others : String → State → State → Type 0
  Others i s s' = (j : String) → j ≢ i → links s' j ≡ links s j

  from_option-Same :
      {A : Type 0} (before : State) (e : HelperError) (o : Option A) (s : State)
      → Same before s
      → Holds (λ a s'. Same before s') (from_option os e o s)
  from_option-Same before e none s h = tt
  from_option-Same before e (some a) s h = h

  check-Holds :
      (b : Bool) (e : HelperError) (s : State) (Q : State → Type 0)
      → (b ≡ true → Q s)
      → Holds (λ u s'. Q s') (check os b e s)
  check-Holds true e s Q h = h refl
  check-Holds false e s Q h = tt

  to_state-Same :
      (before : State) (e : HelperError) (o : Option State) (s : State)
      → Same before s
      → ((s' : State) → o ≡ some s' → Same s s')
      → Holds (λ u s'. Same before s') (to_state os e o s)
  to_state-Same before e none s h k = tt
  to_state-Same before e (some s') s h k = λ j. k s' refl j ∙ h j

  make_inheritable-Same :
      (before : State) (inherited : Bool) (s : State)
      → Same before s
      → Holds (λ u s'. Same before s') (make_inheritable os inherited s)
  make_inheritable-Same before true s h = h
  make_inheritable-Same before false s h =
      to_state-Same before not_set (os.set_inheritable s) s h
        (λ s' e j. ip.inheritable_keeps s s' j e)

  capability-Same : (s : State) → Holds (λ u s'. Same s s') (ensure_cap_net_admin_ambient os s)
  unfolding ensure_cap_net_admin_ambient
  capability-Same s =
      continue-Holds (λ a s'. Same s s') (λ u s'. Same s s')
        (from_option os not_read (os.permits s) s) _
        (from_option-Same s not_read (os.permits s) s (λ j. refl))
        λ permitted s1 h1.
          continue-Holds (λ a s'. Same s s') (λ u s'. Same s s')
            (check os permitted missing_capability s1) _
            (check-Holds permitted missing_capability s1 (Same s) (λ e. h1))
            λ u s2 h2.
              continue-Holds (λ a s'. Same s s') (λ u s'. Same s s')
                (from_option os not_read (os.inherits s2) s2) _
                (from_option-Same s not_read (os.inherits s2) s2 h2)
                λ inherited s3 h3.
                  continue-Holds (λ a s'. Same s s') (λ u s'. Same s s')
                    (make_inheritable os inherited s3) _ (make_inheritable-Same s inherited s3 h3)
                    λ u s4 h4.
                      to_state-Same s not_raised (os.raise_ambient s4) s4 h4
                        (λ s' e j. ip.ambient_keeps s4 s' j e)

  -- `cmd_status`, when its status is checked.
  checked-Holds :
      (args : List String) (e : HelperError) (s : State) (Q : State → Type 0)
      → ((run ("ip" ∷ args) s).0 ≡ some true → Q (run ("ip" ∷ args) s).1)
      → Holds (λ u s'. Q s') (and_then os (cmd_status os args) (λ st. check os st e) s)
  unfolding cmd_status
  checked-Holds args e s Q h = go (run ("ip" ∷ args) s) h
    where
      go :
          (r : Option Bool × State)
          → (r.0 ≡ some true → Q r.1)
          → Holds (λ u s'. Q s') (continue os (ran os r) (λ st. check os st e))
      go (none, s') k = tt
      go (some b, s') k = check-Holds b e s' Q (λ t. k (ap some t))

  create_unless-Others :
      (before : State) (exists : Bool) (i : String) (s : State)
      → Others i before s
      → Holds (λ u s'. Others i before s') (create_unless os exists i s)
  create_unless-Others before true i s h = h
  create_unless-Others before false i s h =
      checked-Holds ("link" ∷ "add" ∷ "dev" ∷ i ∷ "type" ∷ "vcan" ∷ []) (not_created i) s
        (Others i before) (λ t j n. ip.add_others s i j n ∙ h j n)

  -- The interface is up, and the others are as they were.
  pub record IsBroughtUp (i : String) (s s' : State) : Type 0 where
    pub is_up : links s' i ≡ some true
    pub others : Others i s s'

  up-IsBroughtUp : (i : String) (s : State) → Holds (λ u s'. IsBroughtUp i s s') (up os i s)
  unfolding up iface_exists
  up-IsBroughtUp i s =
      continue-Holds (λ u s'. Same s s') (λ u s'. IsBroughtUp i s s')
        (ensure_cap_net_admin_ambient os s) _ (capability-Same s)
        λ u s1 h1.
          let s2 = (run ("modprobe" ∷ "vcan" ∷ []) s1).1 in
          let s3 = (run ("ip" ∷ "link" ∷ "show" ∷ i ∷ []) s2).1 in
          let found = is_ok_and_success os (run ("ip" ∷ "link" ∷ "show" ∷ i ∷ []) s2).0 in
          continue-Holds (λ u s'. Others i s s') (λ u s'. IsBroughtUp i s s')
            (create_unless os found i s3) _
            (create_unless-Others s found i s3
              (λ j n. ip.show_keeps s2 i j ∙ ip.modprobe_keeps s1 j ∙ h1 j))
            λ u s4 h4.
              checked-Holds ("link" ∷ "set" ∷ "up" ∷ i ∷ []) (not_brought_up i) s4 (IsBroughtUp i s)
                (λ t. record {
                  is_up = ip.set_up s4 i t;
                  others = λ j n. ip.set_up_others s4 i j n ∙ h4 j n;
                })

  -- The interface is gone, or `ip` could not be started to look for it in the state `t` that the
  -- check of the capability left; and the others are as they were.
  pub record IsDeleted (i : String) (s s' : State) : Type 0 where
    pub is_gone :
        (links s' i ≡ none)
        ⊎ ((t : State) × (ensure_cap_net_admin_ambient os s ≡ (ok tt, t))
            × ((run ("ip" ∷ "link" ∷ "show" ∷ i ∷ []) t).0 ≡ none))
    pub others : Others i s s'

  down-IsDeleted : (i : String) (s : State) → Holds (λ u s'. IsDeleted i s s') (down os i s)
  unfolding down iface_exists
  down-IsDeleted i s = after_capability (ensure_cap_net_admin_ambient os s) refl (capability-Same s)
    where
      after_show :
          (s1 : State)
          → ensure_cap_net_admin_ambient os s ≡ (ok tt, s1)
          → Same s s1
          → (o : Option Bool) → (run ("ip" ∷ "link" ∷ "show" ∷ i ∷ []) s1).0 ≡ o
          → Holds
              (λ u s'. IsDeleted i s s')
              (delete_if os (is_ok_and_success os o) i (run ("ip" ∷ "link" ∷ "show" ∷ i ∷ []) s1).1)
      after_show s1 c h1 none e = record {
        is_gone = inr (s1, c, e);
        others = λ j n. ip.show_keeps s1 i j ∙ h1 j;
      }
      after_show s1 c h1 (some false) e = record {
        is_gone = inl (ip.show_keeps s1 i i ∙ ip.show_finds s1 i e);
        others = λ j n. ip.show_keeps s1 i j ∙ h1 j;
      }
      after_show s1 c h1 (some true) e =
          let s2 = (run ("ip" ∷ "link" ∷ "show" ∷ i ∷ []) s1).1 in
          checked-Holds ("link" ∷ "del" ∷ i ∷ []) (not_deleted i) s2 (IsDeleted i s) (λ t. record {
            is_gone = inl (ip.deletes s2 i t);
            others = λ j n. ip.delete_others s2 i j n ∙ ip.show_keeps s1 i j ∙ h1 j;
          })

      after_capability :
          (r : Result HelperError (Unit {0}) × State)
          → ensure_cap_net_admin_ambient os s ≡ r
          → Holds (λ u s1. Same s s1) r
          → Holds
              (λ u s'. IsDeleted i s s')
              (continue os r λ u. and_then os (iface_exists os i) λ exists. delete_if os exists i)
      after_capability (err e, s1) c h = tt
      after_capability (ok u, s1) c h =
          after_show s1 c h (run ("ip" ∷ "link" ∷ "show" ∷ i ∷ []) s1).0 refl

  exit-Holds :
      (Q : State → Type 0) (r : Result HelperError (Unit {0}) × State)
      → Holds (λ u s'. Q s') r
      → (exit_code os r).0 ≡ 0
      → Q (exit_code os r).1
  exit-Holds Q (ok u, s) h e = h
  exit-Holds Q (err x, s) h e = absurd (omega arith)

  -- Let the commands treat the interfaces as documented. If `up` ends with the exit code 0, its
  -- interface is up; if `down` does, its interface is gone, or `ip` could not be started to look
  -- for it; and the other interfaces are as they were. Without the capability the code is 1 and
  -- nothing has been done.
  pub main-IsDone :
      (i : String) (s : State)
      → ((main os ("up" ∷ i ∷ []) s).0 ≡ 0 → IsBroughtUp i s (main os ("up" ∷ i ∷ []) s).1)
        × ((main os ("down" ∷ i ∷ []) s).0 ≡ 0 → IsDeleted i s (main os ("down" ∷ i ∷ []) s).1)
        × (os.permits s ≡ some false
            → (main os ("up" ∷ i ∷ []) s ≡ (1, s)) × (main os ("down" ∷ i ∷ []) s ≡ (1, s)))
  unfolding main up down ensure_cap_net_admin_ambient
  main-IsDone i s = (
    exit-Holds (IsBroughtUp i s) (up os i s) (up-IsBroughtUp i s),
    exit-Holds (IsDeleted i s) (down os i s) (down-IsDeleted i s),
    λ e. (rw e refl, rw e refl),
  )
