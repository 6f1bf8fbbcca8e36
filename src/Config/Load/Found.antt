-- ===== src/Config/Load/Found.antt =====
-- Which file `LoadFromFile` reads.
use Prim.Native.String.{String, ◌++◌ as append}
use text.Mathlib.Text.{◌==◌ as str_eq}
use p4app_switch_ml.Prelude.{
  Bool, true, false, Option-cases, Bool-cases, ◌≡◌, refl, ◌∙◌, ap, ◌⊎◌, inl, inr, Option, none,
  some, List, [], ◌∷◌, if◌then◌else◌,
}
use p4app_switch_ml.Outcome.{Outcome, ok, ◌>>=◌}
use p4app_switch_ml.Config.{Config, Features}
use p4app_switch_ml.Config.Load.{
  Files, open_config_file, open_host_file, load_opened, load_from_file, notify_options,
  default_path1, default_path2, default_path3,
}

-- The three default paths, for the empty path, or the path itself.
abbrev pub candidates : String → String → List String
candidates path hostname =
    if str_eq path ""
    then "/etc/switchml.cfg" ∷ "switchml.cfg" ∷ append (append "switchml-" hostname) ".cfg" ∷ []
    else path ∷ []

-- The first file of a list that can be opened.
abbrev pub first_good : (String → Bool) → List String → Option String
first_good good [] = none
first_good good (path ∷ paths) = if good path then some path else first_good good paths

-- The three default paths, whichever of them can be opened.
in_order :
    (good1 good2 good3 : Bool) (path3 : String)
    → (if good1
        then ok (some default_path1)
        else if good2
        then ok (some default_path2)
        else ok (if good3 then some path3 else none))
      ≡ ok (
          if good1
          then some default_path1
          else if good2
          then some default_path2
          else if good3
          then some path3
          else none)
in_order true good2 good3 path3 = refl
in_order false true good3 path3 = refl
in_order false false good3 path3 = refl

open_config_file_lem :
    (files : Files) (path hostname : String)
    → files.hostname ≡ some hostname
    → open_config_file files path ≡ ok (first_good files.good (candidates path hostname))
unfolding open_config_file open_host_file default_path3
open_config_file_lem files path hostname named = elim (Bool-cases (str_eq path "")) [
  | inl empty ↦
      rw (empty, named)
        (in_order (files.good default_path1) (files.good default_path2)
          (files.good (default_path3 hostname)) (default_path3 hostname))
  | inr given ↦ rw given refl
]

-- On a host that has a name, LoadFromFile with an empty path tries `/etc/switchml.cfg`,
-- `switchml.cfg` and `switchml-<hostname>.cfg`, in this order, and with any other path that path
-- alone. Where none of them can be opened it returns false and leaves the configuration as it was;
-- otherwise it parses the first that can be opened and no other, and, when that returns settings,
-- stores an option's value or its default and returns true.
pub load_from_file_lem :
    (f : Features) (files : Files) (c : Config) (path hostname : String)
    → files.hostname ≡ some hostname
    → (first_good files.good (candidates path hostname) ≡ none
        × (load_from_file f files c path ≡ ok (c, false)))
      ⊎ ((file : String) × (first_good files.good (candidates path hostname) ≡ some file)
          × (load_from_file f files c path
              ≡ (files.parse_config_file file >>= λ s. ok (notify_options f s c, true))))
unfolding load_from_file load_opened
load_from_file_lem f files c path hostname named =
    let opened = open_config_file_lem files path hostname named in
    let found = first_good files.good (candidates path hostname) in
    let next : Outcome (Option String) → Outcome (Config × Bool) =
      λ o. o >>= load_opened f files c in
    elim (Option-cases found) [
      | inl nothing ↦ inl (nothing, ap next (opened ∙ ap ok nothing))
      | inr (file, first) ↦ inr (file, first, ap next (opened ∙ ap ok first))
    ]
