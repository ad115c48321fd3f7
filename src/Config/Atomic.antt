-- ===== src/Config/Atomic.antt =====
-- What a reader of the file system can see of a save, and a save followed by a load.
use pipeasio.Prelude.{
  ◌≤◌, ◌≡◌, ◌⊎◌, inl, inr, refl, ap, ◌∙◌, true, false, [], ◌∷◌, ◌++◌, arith, length, length-append,
  length-take, some, none, Option-cases, Bool-cases, if◌then◌else◌, All,
}
use pipeasio.Config.{Bytes, Config}
use pipeasio.Config.Parse.{
  World, apply_mode, load_file, config_path, config_load, or_empty, path_room,
}
use pipeasio.Config.RoundTrip.{IsStorable, load_file-render}
use pipeasio.Config.Save.{Files, Outcome, render, save_to, config_save, last_files, tmp_path}
use pipeasio.Config.Text.{str_eq, codes}

str_eq_refl : (s : Bytes) → str_eq s s ≡ true
unfolding str_eq
str_eq_refl [] = refl
str_eq_refl (c ∷ cs) = ground (arith, str_eq_refl cs)

str_eq-length : (s t : Bytes) → str_eq s t ≡ true → length s ≡ length t
unfolding str_eq
str_eq-length [] [] h = refl
str_eq-length [] (d ∷ t) h = cc
str_eq-length (c ∷ s) [] h = cc
str_eq-length (c ∷ s) (d ∷ t) h = ground (arith, str_eq-length s t)

length-config_path :
    (w : World) (path : Bytes) → config_path w ≡ some path → length path ≤ path_room
unfolding config_path
length-config_path w path h = ground (
  arith,
  length-take path_room
      (or_empty (w.getenv (codes "XDG_CONFIG_HOME")) ++ codes "/pipeasio/config.ini"),
  length-take path_room
      (or_empty (w.getenv (codes "HOME")) ++ codes "/.config/pipeasio/config.ini"),
)

tmp_path-ne : (path : Bytes) → length path ≤ path_room → str_eq (tmp_path path) path ≡ false
tmp_path-ne path h = elim (Bool-cases (str_eq (tmp_path path) path)) [
  | inl e ↦ absurd (
      omega (
        arith,
        str_eq-length (tmp_path path) path e,
        length-take 1099 (path ++ codes ".tmp"),
        length-append path (codes ".tmp"),
      ))
  | inr e ↦ e
]

abbrev pub IsOldOrNew : Bytes → Bytes → Files → Files → Type 0
IsOldOrNew path text old fs = (fs path ≡ old path) ⊎ (fs path ≡ some text)

module _ (path : Bytes) (o : Outcome) (fs : Files) (c : Config)
    (fits : length path ≤ path_room) where
  save_to-atomic : All (IsOldOrNew path (render (apply_mode c)) fs) (save_to path o fs c).states
  unfolding save_to
  save_to-atomic =
      ground (arith, tmp_path-ne path fits, str_eq_refl path, str_eq_refl (tmp_path path))

  save_to-result :
      last_files fs (save_to path o fs c).states path
      ≡ (if (save_to path o fs c).ok then some (render (apply_mode c)) else fs path)
  unfolding save_to
  save_to-result =
      ground (arith, tmp_path-ne path fits, str_eq_refl path, str_eq_refl (tmp_path path))

  save_to-others :
      (q : Bytes)
      → str_eq path q ≡ false
      → str_eq (tmp_path path) q ≡ false
      → last_files fs (save_to path o fs c).states q ≡ fs q
  unfolding save_to
  save_to-others q p t = ground arith

save_cases :
    (w : World) (o : Outcome) (c : Config) (path : Bytes)
    → config_path w ≡ some path
    → config_save w o c ≡ save_to path o w.files c
unfolding config_save
save_cases w o c path e = rw (e, config_save)

-- Where the config file has a path, a save replaces it in one step.  In every state between its system calls the file
-- holds its old content or the whole new text; at the end it holds the new text where the save
-- reports success, and the old content otherwise.
pub config_save-atomic :
    (w : World) (o : Outcome) (c : Config) (path : Bytes)
    → config_path w ≡ some path
    → let r = config_save w o c in
      All (IsOldOrNew path (render (apply_mode c)) w.files) r.states
      × (last_files w.files r.states path
          ≡ (if r.ok then some (render (apply_mode c)) else w.files path))
config_save-atomic w o c path e =
    let fits : length path ≤ path_room = length-config_path w path e in
    rw (save_cases w o c path e)
      (save_to-atomic path o w.files c fits, save_to-result path o w.files c fits)

-- Where the config file has a path, a save leaves every file but that one and its temporary one as
-- it was.
pub config_save-others :
    (w : World) (o : Outcome) (c : Config) (path q : Bytes)
    → config_path w ≡ some path
    → str_eq path q ≡ false
    → str_eq (tmp_path path) q ≡ false
    → last_files w.files (config_save w o c).states q ≡ w.files q
config_save-others w o c path q e p t =
    rw (save_cases w o c path e)
      (save_to-others path o w.files c (length-config_path w path e) q p t)

config_path-files : (w : World) (fs : Files) → config_path (record w { files = fs }) ≡ config_path w
unfolding config_path
config_path-files w fs = refl

load_of_file :
    (w : World) (path file : Bytes)
    → config_path w ≡ some path
    → w.files path ≡ some file
    → config_load w ≡ (true, load_file file)
unfolding config_load
load_of_file w path file e f = rw (e, config_load) (rw f)

no_path-fails :
    (w : World) (o : Outcome) (c : Config) → config_path w ≡ none → (config_save w o c).ok ≡ false
unfolding config_save
no_path-fails w o c e = rw (e, config_save)

-- Valid and printable settings that were saved with success are what the next load returns.
pub config_load-config_save :
    (w : World) (o : Outcome) (c : Config)
    → IsStorable c
    → (config_save w o c).ok ≡ true
    → config_load (record w { files = last_files w.files (config_save w o c).states }) ≡ (true, c)
config_load-config_save w o c s ok = elim (Option-cases (config_path w)) [
  | inl e ↦ cc (no_path-fails w o c e)
  | inr (path, e) ↦
      load_of_file _ path (render (apply_mode c)) (config_path-files w _ ∙ e)
        ((config_save-atomic w o c path e).1 ∙ rw ok)
      ∙ ap (λ (d : Config). (true, d)) (load_file-render c s)
]
