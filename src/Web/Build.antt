-- ===== src/Web/Build.antt =====
-- The builds of the two dashboards, web/frps/webpack.config.js and web/frpc/webpack.config.js: the
-- parts of a configuration of webpack that they fill. What webpack, its loaders and its plugins do is not
-- part of it, except that a rule applies to a file if its test and not its exclude matches the file's path.
pub mod Text
pub mod Frps
pub mod Frpc
pub mod Endings
pub mod Matched
pub mod Rules
use frp.Prelude.{ℕ, String, Bool, true, false, ◌&&◌, ◌||◌, not, Option, none, some, List, [], ◌∷◌}
use frp.Web.Build.Text.{after, is_end, is_query, somewhere}

-- What a regular expression asks for after one of its texts.
pub data Rest : Type 0 where
  at_end maybe_query anything : Rest

-- The regular expressions of the rules: one of some texts, and then the rest.
pub record Pattern : Type 0 where
  pub alternatives : List String
  pub rest : Rest

abbrev pub fits : Rest → Option String → Bool
fits rest none = false
fits at_end (some r) = is_end r
fits maybe_query (some r) = is_end r || is_query r
fits anything (some r) = true

unfoldable pub fits_any : List String → Rest → String → Bool
unfolding after
fits_any [] rest t = false
fits_any (a ∷ others) rest t = let more = fits_any others rest t in fits rest (after a t) || more

unfoldable pub matches : Pattern → String → Bool
unfolding fits_any somewhere
matches p path = somewhere (fits_any p.alternatives p.rest) path

-- A value of an option; a key of an object in an object is written as a path, with dots.
pub data Value : Type 0 where
  text : String → Value
  texts : List String → Value
  number : ℕ → Value
  flag : Bool → Value

pub record Loader : Type 0 where
  pub loader : String
  pub options : List (String × Value)

pub record Rule : Type 0 where
  pub test : Pattern
  pub exclude : Option Pattern
  pub use_loaders : List Loader

abbrev pub excluded : Option Pattern → String → Bool
excluded none path = false
excluded (some p) path = matches p path

unfoldable pub applies : Rule → String → Bool
unfolding matches
applies r path = matches r.test path && not (excluded r.exclude path)

abbrev pub plain : String → Loader
plain name = record { loader = name; options = [] }

pub record Output : Type 0 where
  pub path : String
  pub filename : String
  pub chunk_filename : String
  pub public_path : String

-- The plugins with their options, in order.
pub data BuildPlugin : Type 0 where
  commons_chunk : List String → BuildPlugin
  html : List (String × Value) → BuildPlugin
  module_replacement : String → String → BuildPlugin
  define : List (String × Value) → BuildPlugin
  uglify_js : List (String × Value) → BuildPlugin
  vue_loader : BuildPlugin

-- An entry of the proxy of the development server: requests below `context` go to `target`, without the prefix.
pub record DevProxy : Type 0 where
  pub context : String
  pub target : String
  pub change_origin : Bool
  pub dropped_prefix : String

pub record DevServer : Type 0 where
  pub host : String
  pub port : ℕ
  pub proxy : List DevProxy
  pub history_index : Option String

pub record BuildConfig : Type 0 where
  pub entry : List (String × String)
  pub output : Output
  pub extensions : List String
  pub alias : List (String × String)
  pub rules : List Rule
  pub plugins : List BuildPlugin
  pub dev_server : DevServer
