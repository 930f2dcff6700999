-- ===== src/Commands/Settings.antt =====
-- cmd/root.go: which configuration file is loaded. os.ReadFile, yaml.Unmarshal and filepath.Join
-- are parameters; an Unmarshal that fails may have set some of the settings.
use go_proxy.Base.{◌≡◌, refl, ap, Bool, true, false, Option, none, some, List, [], ◌∷◌, ◌++◌}
use go_proxy.Base.Text.{Text, codes}
use go_proxy.Model.Config.{Config, default_config}

-- The configuration, and the path of the file that it comes from (empty if there is none).
pub record Settings : Type 0 where
  pub config : Config
  pub loaded : Text

-- What the command reads: the content of a file, the configuration that a content makes of
-- one and whether it is without an error, and the directory of the executable.
pub record Reads : Type 0 where
  pub read_file : Text → Option Text
  pub unmarshal : Text → Config → Config × Bool
  pub exec_dir : Option Text
  pub join : Text → Text → Text

abbrev pub in_working_dir : List Text
in_working_dir = codes "configs/config.yaml" ∷ codes "config.yaml" ∷ []

abbrev pub beside_executable : Reads → Option Text → List Text
beside_executable r none = []
beside_executable r (some dir) =
    r.join dir (codes "configs/config.yaml") ∷ r.join dir (codes "config.yaml") ∷ []

-- The paths that are tried, for the value of the flag --config.
unfoldable pub config_candidates : Reads → Text → List Text
config_candidates r [] = in_working_dir ++ beside_executable r r.exec_dir
config_candidates r (b ∷ path) = (b ∷ path) ∷ []

-- What becomes of a file that was read: the loop ends with it, or goes on with `next`.
abbrev pub parsed : Text → Config × Bool → (Config → Settings) → Settings
parsed path (c, true) next = record { config = c; loaded = path }
parsed path (c, false) next = next c

abbrev pub tried : Reads → Text → Option Text → Config → (Config → Settings) → Settings
tried r path none c next = next c
tried r path (some content) c next = parsed path (r.unmarshal content c) next

-- The loop over the candidates.
unfoldable pub load_first : Reads → List Text → Config → Settings
load_first r [] c = record { config = c; loaded = [] }
load_first r (p ∷ ps) c = tried r p (r.read_file p) c (λ d. load_first r ps d)

-- `initConfig`
unfoldable pub init_config : Reads → Text → Settings
unfolding default_config config_candidates load_first
init_config r flag = load_first r (config_candidates r flag) default_config

-- The configuration after the files of `ps`, none of which can be loaded.
pub data Skipped (r : Reads) : List Text → Config → Config → Type 0 where
  at_start : (c : Config) → Skipped r [] c c
  not_read :
      (p : Text) (ps : List Text) (c d : Config)
      → r.read_file p ≡ none
      → Skipped r ps c d
      → Skipped r (p ∷ ps) c d
  not_parsed :
      (p : Text) (ps : List Text) (content : Text) (c e d : Config)
      → r.read_file p ≡ some content
      → r.unmarshal content c ≡ (e, false)
      → Skipped r ps e d
      → Skipped r (p ∷ ps) c d

-- How the loop over the paths `ps` ends: all are skipped, or those before the first that can be
-- read and parsed, whose settings it takes.
pub data Loads (r : Reads) (ps : List Text) (c : Config) (s : Settings) : Type 0 where
  nothing_loaded : Skipped r ps c s.config → s.loaded ≡ [] → Loads r ps c s
  loaded_from :
      (before after : List Text) (content : Text) (d : Config)
      → ps ≡ before ++ s.loaded ∷ after
      → Skipped r before c d
      → r.read_file s.loaded ≡ some content
      → r.unmarshal content d ≡ (s.config, true)
      → Loads r ps c s

-- A path that is skipped before the end of the loop.
later :
    (r : Reads) (p : Text) (ps : List Text) (c e : Config) (s : Settings)
    → ((qs : List Text) (d : Config) → Skipped r qs e d → Skipped r (p ∷ qs) c d)
    → Loads r ps e s
    → Loads r (p ∷ ps) c s
later r p ps c e s skip (nothing_loaded k l) = nothing_loaded (skip ps s.config k) l
later r p ps c e s skip (loaded_from before after content d q k f u) =
    loaded_from (p ∷ before) after content d (ap (λ t. p ∷ t) q) (skip before d k) f u

tried-Loads :
    (r : Reads) (p : Text) (ps : List Text) (c : Config) (o : Option Text)
    → r.read_file p ≡ o
    → ((d : Config) → Loads r ps d (load_first r ps d))
    → Loads r (p ∷ ps) c (tried r p o c (λ d. load_first r ps d))
tried-Loads r p ps c none e rest = later r p ps c c _ (λ qs d k. not_read p qs c d e k) (rest c)
tried-Loads r p ps c (some content) e rest = go (r.unmarshal content c) refl
  where
    go :
        (u : Config × Bool)
        → r.unmarshal content c ≡ u
        → Loads r (p ∷ ps) c (parsed p u (λ d. load_first r ps d))
    go (d, true) h = loaded_from [] ps content c refl (at_start c) e h
    go (d, false) h = later r p ps c d _ (λ qs b k. not_parsed p qs content c d b e h k) (rest d)

load_first-Loads : (r : Reads) (ps : List Text) (c : Config) → Loads r ps c (load_first r ps c)
unfolding load_first
load_first-Loads r [] c = nothing_loaded (at_start c) refl
load_first-Loads r (p ∷ ps) c =
    tried-Loads r p ps c (r.read_file p) refl (λ d. load_first-Loads r ps d)

-- The configuration that a command works with comes from the first of the candidates that can be
-- read and parsed, over the defaults, and if there is none no file counts as loaded. A
-- file that can be read but not parsed is passed over, yet what its Unmarshal has set stays.
pub init_config-Loads :
    (r : Reads) (flag : Text)
    → Loads r (config_candidates r flag) default_config (init_config r flag)
unfolding init_config
init_config-Loads r flag = load_first-Loads r (config_candidates r flag) default_config
