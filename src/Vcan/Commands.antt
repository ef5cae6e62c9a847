-- ===== src/Vcan/Commands.antt =====
-- The documented behaviour of the commands that the helper runs.
use ferro_flow.Prelude.{◌≡◌, ◌≢◌, String, Bool, true, false, [], ◌∷◌, Option, none, some}
use ferro_flow.Vcan.{System}

-- What `ip` and `modprobe` do to the interfaces, by their documentation: `links s i` is whether the
-- interface `i` is up, if it is there. A command that fails may have done anything to its own
-- interface.
pub record IsIp (os : System) (links : os.State → String → Option Bool) : Type 0 where
  pub inheritable_keeps :
      (s s' : os.State) (i : String) → os.set_inheritable s ≡ some s' → links s' i ≡ links s i
  pub ambient_keeps :
      (s s' : os.State) (i : String) → os.raise_ambient s ≡ some s' → links s' i ≡ links s i
  pub modprobe_keeps :
      (s : os.State) (i : String) → links (os.run ("modprobe" ∷ "vcan" ∷ []) s).1 i ≡ links s i
  pub show_keeps :
      (s : os.State) (j i : String)
      → links (os.run ("ip" ∷ "link" ∷ "show" ∷ j ∷ []) s).1 i ≡ links s i
  pub show_finds :
      (s : os.State) (i : String)
      → (os.run ("ip" ∷ "link" ∷ "show" ∷ i ∷ []) s).0 ≡ some false
      → links s i ≡ none
  pub add_others :
      (s : os.State) (i j : String)
      → j ≢ i
      → links (os.run ("ip" ∷ "link" ∷ "add" ∷ "dev" ∷ i ∷ "type" ∷ "vcan" ∷ []) s).1 j ≡ links s j
  pub set_up :
      (s : os.State) (i : String)
      → (os.run ("ip" ∷ "link" ∷ "set" ∷ "up" ∷ i ∷ []) s).0 ≡ some true
      → links (os.run ("ip" ∷ "link" ∷ "set" ∷ "up" ∷ i ∷ []) s).1 i ≡ some true
  pub set_up_others :
      (s : os.State) (i j : String)
      → j ≢ i
      → links (os.run ("ip" ∷ "link" ∷ "set" ∷ "up" ∷ i ∷ []) s).1 j ≡ links s j
  pub deletes :
      (s : os.State) (i : String)
      → (os.run ("ip" ∷ "link" ∷ "del" ∷ i ∷ []) s).0 ≡ some true
      → links (os.run ("ip" ∷ "link" ∷ "del" ∷ i ∷ []) s).1 i ≡ none
  pub delete_others :
      (s : os.State) (i j : String)
      → j ≢ i
      → links (os.run ("ip" ∷ "link" ∷ "del" ∷ i ∷ []) s).1 j ≡ links s j
