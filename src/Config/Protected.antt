-- ===== src/Config/Protected.antt =====
-- Map and Protected of pkg/config/config_protect.go together.
use Prim.Native.Char.{Char, code}
use Prim.Native.String.{[] as empty, ◌∷◌ as char_cons, ◌++◌ as str_append}
use text.Mathlib.Text.{starts_with}
use text.Mathlib.TextEquality.{Char-path, starts_with_iff}
use text.Mathlib.TextLemmas.{head-eq_of_cons-eq, cons-append, nil-append}
use luet.Prelude.{
  String, ◌≡◌, refl, sym, ◌∙◌, ap, Bool, true, false, List, [], ◌∷◌, ◌++◌, arith, ◌&&◌, ◌||◌, ◌==◌,
  any, any-append, nat_eq, if◌then◌else◌, Bool-cases, inl, inr, ==→eq,
}
use luet.GoMap.{has, has-put}
use luet.Result.{ok}
use luet.Config.Protect.{
  ConfigProtectConfFile, ConfigProtect, slashed, with_slash, is_protectable, map_each, map_files,
  protected,
}

-- The path from the root: the text itself if it begins with a slash, and otherwise behind one.
abbrev pub absolute : String → String
absolute f = if starts_with f "/" then f else str_append "/" f

-- The directories of all files of the configuration, and that of the annotation if there is one.
abbrev pub protected_dirs : List ConfigProtectConfFile → (annotation_dir : String) → List String
protected_dirs [] annotation_dir = if annotation_dir == "" then [] else annotation_dir ∷ []
protected_dirs (conf ∷ confs) annotation_dir =
    conf.directories ++ protected_dirs confs annotation_dir

abbrev slash : Char
slash = "/"

append_slash : (s : String) → str_append "/" s ≡ char_cons slash s
append_slash s = cons-append slash empty s ∙ ap (char_cons slash) (nil-append s)

slash_first : (c : Char) (s : String) → starts_with (char_cons c s) "/" ≡ nat_eq (code c) b'/'
slash_first c s = elim (Bool-cases (nat_eq (code c) b'/')) [
  | inl y ↦
      let same : code c ≡ b'/' = ground arith in
      let begins =
        (starts_with_iff (char_cons c s) "/").1
          (s, append_slash s ∙ ap (λ d. char_cons d s) (sym (Char-path c slash same))) in
      begins ∙ sym y
  | inr n ↦ elim (Bool-cases (starts_with (char_cons c s) "/")) [
    | inl b ↦
        let prefix = (starts_with_iff (char_cons c s) "/").0 b in
        let same : b'/' ≡ code c =
          ap code (head-eq_of_cons-eq (sym (append_slash prefix.0) ∙ prefix.1)) in
        absurd (ground arith)
    | inr b ↦ b ∙ sym n
  ]
]

slashed-absolute : (f : String) → (f == "") ≡ false → slashed f ≡ absolute f
unfolding slashed ◌==◌
slashed-absolute empty h = cc
slashed-absolute (char_cons c s) h = rw (slash_first c s, append_slash (char_cons c s)) refl

abbrev pub in_dirs : (clean : String → String) → String → List String → Bool
in_dirs clean g dirs = any (λ dir. starts_with g (clean dir)) dirs

is_protectable-in_dirs :
    (clean : String → String) (confs : List ConfigProtectConfFile) (annotation_dir g : String)
    → is_protectable clean confs annotation_dir g
      ≡ in_dirs clean g (protected_dirs confs annotation_dir)
unfolding is_protectable
is_protectable-in_dirs clean [] annotation_dir g = elim (Bool-cases (annotation_dir == "")) [
  | inl e ↦ rw e refl
  | inr e ↦ rw e (ground arith)
]
is_protectable-in_dirs clean (conf ∷ confs) annotation_dir g =
    rw
      (
        any-append (λ dir. starts_with g (clean dir)) conf.directories
            (protected_dirs confs annotation_dir),
        sym (is_protectable-in_dirs clean confs annotation_dir g),
      )
      (ground arith)

module _ (clean : String → String) (confs : List ConfigProtectConfFile) where
  -- The path begins with one of the directories, each as filepath.Clean has it.
  abbrev in_protected : (annotation_dir : String) → String → Bool
  in_protected annotation_dir g = in_dirs clean g (protected_dirs confs annotation_dir)

  -- Whether a path is protected after Map: before it, or one of the files, in a protected directory.
  abbrev pub after_map : List String → ConfigProtect → String → Bool
  after_map files c g =
      has g c.map_protected || (any (λ f. absolute f == g) files && in_protected c.annotation_dir g)

  after_map-inside :
      (f : String) (files : List String) (c : ConfigProtect) (g : String)
      → in_protected c.annotation_dir (absolute f) ≡ true
      → ((if absolute f == g then true else has g c.map_protected)
          || (any (λ f. absolute f == g) files && in_protected c.annotation_dir g))
        ≡ after_map (f ∷ files) c g
  after_map-inside f files c g y = elim (Bool-cases (absolute f == g)) [
    | inl e ↦ rw (e, rw (==→eq (absolute f) g e) at y) (ground arith)
    | inr e ↦ rw e refl
  ]

  after_map-outside :
      (f : String) (files : List String) (c : ConfigProtect) (g : String)
      → in_protected c.annotation_dir (absolute f) ≡ false
      → after_map files c g ≡ after_map (f ∷ files) c g
  after_map-outside f files c g n = elim (Bool-cases (absolute f == g)) [
    | inl e ↦ rw (e, rw (==→eq (absolute f) g e) at n) (ground arith)
    | inr e ↦ rw e refl
  ]

  map_each-has :
      (files : List String) (c : ConfigProtect)
      → any (λ f. f == "") files ≡ false
      → (c' : ConfigProtect) × (map_each clean confs files c ≡ ok c')
        × ((g : String) → has g c'.map_protected ≡ after_map files c g)
  unfolding map_each with_slash
  map_each-has [] c h = (c, refl, λ g. ground arith)
  map_each-has (f ∷ files) c h =
      let named : (f == "") ≡ false = ground arith in
      let path = slashed-absolute f named in
      let test = is_protectable-in_dirs clean confs c.annotation_dir (absolute f) in
      elim (Bool-cases (in_protected c.annotation_dir (absolute f))) [
        | inl y ↦
            let (c', run, found) =
              map_each-has files
                (record c { map_protected = luet.GoMap.put (absolute f) true c.map_protected })
                (ground arith) in
            (
              c',
              rw (named, path, test, y) run,
              λ g.
                  found g
                  ∙ rw (has-put (absolute f) g true c.map_protected)
                      (after_map-inside f files c g y),
            )
        | inr n ↦
            let (c', run, found) = map_each-has files c (ground arith) in
            (c', rw (named, path, test, n) run, λ g. found g ∙ after_map-outside f files c g n)
      ]

  -- For file names that are not empty, Map returns, and then Protected says of every name that is not
  -- empty whether its absolute path was protected before, or is the absolute path of one of the files
  -- and begins with a directory of the configuration or with that of the annotation, if there is one.
  -- With the option ConfigProtectSkip, it says what it said before.
  pub protected-map_files :
      (skip : Bool) (files : List String) (c : ConfigProtect) (f : String)
      → any (λ f. f == "") files ≡ false
      → (f == "") ≡ false
      → (c' : ConfigProtect) × (map_files clean skip confs files c ≡ ok c')
        × (protected f c'
            ≡ ok
                (if skip then has (absolute f) c.map_protected else after_map files c (absolute f)))
  unfolding map_files protected with_slash
  protected-map_files true files c f h n = (c, refl, rw (n, slashed-absolute f n) refl)
  protected-map_files false files c f h n =
      let (c', run, found) = map_each-has files c h in
      (c', run, rw (n, slashed-absolute f n, found (absolute f)) refl)
