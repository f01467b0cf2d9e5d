-- ===== src/Args/Flags.antt =====
-- Flags and options of the command line.
use octet.Prelude.{
  ℕ, ◌≡◌, refl, true, false, Option, List, [], ◌∷◌, ◌++◌, ◌==◌, nat_eq, list_eq, list_beq, beq_refl,
  Bytes, codes, All,
}
use octet.Args.{has_flag, read_arguments, fail}

-- A flag is found wherever it stands, and only its first occurrence is taken out.
pub has_flag-found :
    (flag : Bytes) (before after : List Bytes)
    → All (λ arg. (arg == flag) ≡ false) before
    → has_flag flag (before ++ flag ∷ after) ≡ (true, before ++ after)
unfolding has_flag
has_flag-found flag [] after h = rw (beq_refl flag) refl
has_flag-found flag (arg ∷ before) after (ne, h) = rw (ne, has_flag-found flag before after h) refl

-- The flag that the help calls `--disable-warnings` is not known under this name: behind any path
-- to the storage, the interactive mode refuses it as an unknown argument.
documented_flag_refused :
    (stoul : Bytes → Option ℕ) (path : Bytes)
    → (read_arguments stoul (
        (codes "--storage=" ++ path)
        ∷ codes "--interactive"
        ∷ codes "--disable-warnings"
        ∷ [])).mode
      ≡ fail
unfolding read_arguments list_beq
documented_flag_refused stoul path = refl
