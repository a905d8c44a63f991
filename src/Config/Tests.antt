-- ===== src/Config/Tests.antt =====
-- A run of Map and Protected.
use luet.Prelude.{String, ◌≡◌, refl, false, List, [], ◌∷◌, ◌==◌, any}
use luet.Result.{ok, panic}
use luet.Config.Protect.{
  ConfigProtectConfFile, ConfigProtect, new_config_protect, map_files, protected,
}
use luet.Config.Protected.{absolute, after_map, protected-map_files}

abbrev confs : List ConfigProtectConfFile
confs = record { filename = "etc.yml"; name = "etc"; directories = "/etc" ∷ [] } ∷ []

abbrev files : List String
files = "etc/fstab" ∷ "usr/bin/luet" ∷ "usr/share/app.yml" ∷ []

none_empty : any (λ f. f == "") files ≡ false
unfolding ◌==◌
none_empty = refl

annotated_named : ("usr/share/app.yml" == "") ≡ false
unfolding ◌==◌
annotated_named = refl

protected-map_files_example :
    (c' : ConfigProtect) × (map_files
        (λ dir. dir)
        false
        confs
        files
        (new_config_protect "usr/share")
      ≡ ok c')
    × (protected "usr/share/app.yml" c'
        ≡ ok (
            after_map
              (λ dir. dir)
              confs
              files
              (new_config_protect "usr/share")
              (absolute "usr/share/app.yml")))
protected-map_files_example =
    protected-map_files (λ dir. dir) confs false files (new_config_protect "usr/share")
      "usr/share/app.yml" none_empty annotated_named

-- An empty file name is out of range.
empty_name : map_files (λ dir. dir) false confs ("" ∷ []) (new_config_protect "") ≡ panic
unfolding map_files ◌==◌
empty_name = refl
