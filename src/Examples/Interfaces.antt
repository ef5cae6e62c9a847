-- ===== src/Examples/Interfaces.antt =====
-- The helper on a small system: its interfaces, and whether the capability is permitted.
use ferro_flow.Prelude.{
  ◌≡◌, ◌≢◌, refl, String, Bool, true, false, List, [], ◌∷◌, Option, none, some, ◌==◌, string_eq,
  if◌then◌else◌, arith, Bool-cases, inl, inr, beq_refl,
}
use ferro_flow.Vcan.{System, main}
use ferro_flow.Vcan.Commands.{IsIp}
use ferro_flow.Vcan.Links.{IsBroughtUp, IsDeleted, main-IsDone}

abbrev State : Type 0
State = String → Option Bool

abbrev put : String → Option Bool → State → State
put i v s j = if j == i then v else s j

-- `show` finds an interface that is there, `add` and `set` make it, `del` removes it.
abbrev link : String → List String → State → Option Bool × State
link verb [] s = (some false, s)
link verb (a ∷ []) s =
    if verb == "show"
    then (elim (s a) [ none ↦ some false | some u ↦ some true ], s)
    else if verb == "del"
    then (some true, put a none s)
    else (some false, s)
link verb (a ∷ b ∷ []) s = (some true, put b (some true) s)
link verb (a ∷ b ∷ rest) s = (some true, put b (some false) s)

abbrev run : List String → State → Option Bool × State
run [] s = (none, s)
run (a ∷ []) s = (none, s)
run (a ∷ b ∷ []) s = (some true, s)
run (a ∷ b ∷ verb ∷ rest) s = link verb rest s

abbrev linux : System
linux = record {
  State = State;
  permits = λ s. some true;
  inherits = λ s. some false;
  set_inheritable = λ s. some s;
  raise_ambient = λ s. some s;
  run = run;
}

abbrev links : State → String → Option Bool
links s i = s i

put_other : (i j : String) (v : Option Bool) (s : State) → j ≢ i → put i v s j ≡ s j
put_other i j v s n = elim (Bool-cases (j == i)) [
  | inl e ↦ absurd (n ((string_eq.same_iff j i).0 e))
  | inr e ↦ rw e
]

put_same : (i : String) (v : Option Bool) (s : State) → put i v s i ≡ v
put_same i v s = rw (beq_refl i)

show_none :
    (s : State) (i : String) → (run ("ip" ∷ "link" ∷ "show" ∷ i ∷ []) s).0 ≡ some false → s i ≡ none
show_none s i h = ground arith

linux-IsIp : IsIp linux links
linux-IsIp = record {
  inheritable_keeps = λ s s' i e. ground arith;
  ambient_keeps = λ s s' i e. ground arith;
  modprobe_keeps = λ s i. refl;
  show_keeps = λ s j i. refl;
  show_finds = show_none;
  add_others = λ s i j n. put_other i j (some false) s n;
  set_up = λ s i e. put_same i (some true) s;
  set_up_others = λ s i j n. put_other i j (some true) s n;
  deletes = λ s i e. put_same i none s;
  delete_others = λ s i j n. put_other i j none s n;
}

abbrev empty : State
empty i = none

main-IsDone_example :
    ((main linux ("up" ∷ "vcan0" ∷ []) empty).0 ≡ 0
      → IsBroughtUp linux links linux-IsIp "vcan0" empty (main linux ("up" ∷ "vcan0" ∷ []) empty).1)
    × ((main linux ("down" ∷ "vcan0" ∷ []) empty).0 ≡ 0
        → IsDeleted linux links linux-IsIp "vcan0" empty
            (main linux ("down" ∷ "vcan0" ∷ []) empty).1)
    × (◌≡◌ {A = Option Bool} (some true) (some false)
        → (main linux ("up" ∷ "vcan0" ∷ []) empty ≡ (1, empty))
          × (main linux ("down" ∷ "vcan0" ∷ []) empty ≡ (1, empty)))
main-IsDone_example = main-IsDone linux links linux-IsIp "vcan0" empty

-- `up` does succeed here.
up-succeeds : (main linux ("up" ∷ "vcan0" ∷ []) empty).0 ≡ 0
unfolding main
up-succeeds = refl
