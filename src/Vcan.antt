-- ===== src/Vcan.antt =====
-- src/bin/ferroflow-vcan.rs: the helper that creates and deletes virtual CAN interfaces. The
-- operating system is the record `System`: its state, the capability calls, and the commands that
-- are run.
pub mod Commands
pub mod Links
use ferro_flow.Prelude.{
  ℕ, String, Bool, true, false, not, List, [], ◌∷◌, Option, none, some, Result, ok, err, ◌==◌,
  string_eq, if◌then◌else◌,
}

pub record System : Type 1 where
  pub State : Type 0
  pub permits : State → Option Bool  -- CAP_NET_ADMIN is in the permitted set; `none` is an error
  pub inherits : State → Option Bool  -- it is in the inheritable set
  pub set_inheritable : State → Option State  -- `caps::set` with it
  pub raise_ambient : State → Option State  -- `prctl`; `none` where it does not return 0
  pub run : List String → State → Option Bool × State  -- `status()` of a command, and its `success()`

pub data HelperError : Type 0 where
  not_read missing_capability not_set not_raised not_started : HelperError
  not_created not_brought_up not_deleted : String → HelperError

module _ (os : System) where
  open os use {State, permits, inherits, set_inheritable, raise_ambient, run}

  -- A call that may fail and changes the system's state.
  abbrev pub Call : Type 0 → Type 0
  Call A = State → Result HelperError A × State

  abbrev pub continue :
      {A B : Type 0} → Result HelperError A × State → (A → Call B) → Result HelperError B × State
  continue (ok a, s) f = f a s
  continue (err e, s) f = (err e, s)

  abbrev pub and_then : {A B : Type 0} → Call A → (A → Call B) → Call B
  and_then m f s = continue (m s) f

  abbrev pub from_option : {A : Type 0} → HelperError → Option A → Call A
  from_option e none s = (err e, s)
  from_option e (some a) s = (ok a, s)

  abbrev pub check : Bool → HelperError → Call (Unit {0})
  check true e s = (ok tt, s)
  check false e s = (err e, s)

  abbrev pub to_state : HelperError → Option State → Call (Unit {0})
  to_state e none s = (err e, s)
  to_state e (some s') s = (ok tt, s')

  abbrev pub ran : Option Bool × State → Result HelperError Bool × State
  ran (none, s) = (err not_started, s)
  ran (some b, s) = (ok b, s)

  abbrev pub is_ok_and_success : Option Bool → Bool
  is_ok_and_success none = false
  is_ok_and_success (some b) = b

  unfoldable pub cmd_status : List String → Call Bool
  cmd_status args s = ran (run ("ip" ∷ args) s)

  -- A command that cannot be started counts as one that does not find the interface.
  unfoldable pub iface_exists : String → Call Bool
  iface_exists iface s =
      let (status, s') = run ("ip" ∷ "link" ∷ "show" ∷ iface ∷ []) s in
      (ok (is_ok_and_success status), s')

  -- "Put CAP_NET_ADMIN into inheritable so we can raise it into ambient."
  abbrev pub make_inheritable : Bool → Call (Unit {0})
  make_inheritable true s = (ok tt, s)
  make_inheritable false s = to_state not_set (set_inheritable s) s

  unfoldable pub ensure_cap_net_admin_ambient : Call (Unit {0})
  ensure_cap_net_admin_ambient =
      and_then (λ s. from_option not_read (permits s) s)
        λ permitted. and_then (check permitted missing_capability) λ _.
          and_then (λ s. from_option not_read (inherits s) s)
            λ inherited.
              and_then (make_inheritable inherited) λ _ s. to_state not_raised (raise_ambient s) s

  -- "Try to load the vcan module; ignore errors"
  abbrev pub load_module : Call (Unit {0})
  load_module s = (ok tt, (run ("modprobe" ∷ "vcan" ∷ []) s).1)

  abbrev pub create_unless : Bool → String → Call (Unit {0})
  create_unless true iface s = (ok tt, s)
  create_unless false iface s =
      and_then (cmd_status ("link" ∷ "add" ∷ "dev" ∷ iface ∷ "type" ∷ "vcan" ∷ []))
        (λ st. check st (not_created iface)) s

  unfoldable pub up : String → Call (Unit {0})
  unfolding ensure_cap_net_admin_ambient iface_exists cmd_status
  up iface = and_then ensure_cap_net_admin_ambient λ _. and_then load_module λ _.
      and_then (iface_exists iface) λ exists. and_then (create_unless exists iface) λ _.
        and_then (cmd_status ("link" ∷ "set" ∷ "up" ∷ iface ∷ []))
          λ st. check st (not_brought_up iface)

  abbrev pub delete_if : Bool → String → Call (Unit {0})
  delete_if false iface s = (ok tt, s)
  delete_if true iface s =
      and_then (cmd_status ("link" ∷ "del" ∷ iface ∷ [])) (λ st. check st (not_deleted iface)) s

  unfoldable pub down : String → Call (Unit {0})
  unfolding ensure_cap_net_admin_ambient iface_exists cmd_status
  down iface =
      and_then ensure_cap_net_admin_ambient
        λ _. and_then (iface_exists iface) λ exists. delete_if exists iface

  -- The exit code, and the system behind it.
  abbrev pub exit_code : Result HelperError (Unit {0}) × State → ℕ × State
  exit_code (ok u, s) = (0, s)
  exit_code (err e, s) = (1, s)

  abbrev pub or_vcan0 : List String → String
  or_vcan0 [] = "vcan0"
  or_vcan0 (iface ∷ rest) = iface

  abbrev pub execute : String → String → State → ℕ × State
  execute cmd iface s =
      if cmd == "up"
      then exit_code (up iface s)
      else if cmd == "down"
      then exit_code (down iface s)
      else (2, s)

  -- `main` on the arguments behind the program's name; `usage` ends with the code 2.
  unfoldable pub main : List String → State → ℕ × State
  unfolding up down
  main [] s = (2, s)
  main (cmd ∷ args) s = execute cmd (or_vcan0 args) s
