-- ===== src/Web/Build/Frps.antt =====
-- web/frps/webpack.config.js and web/frps/postcss.config.js. `resolve` is path.resolve in the directory of the file, and
-- `url_pathname` the pathname that url.parse finds.
-- A loader that is given by its name alone has no options; a chain of loaders is in the order in which the
-- file names them.
use frp.Prelude.{String, Bool, true, false, if◌then◌else◌, Option, none, some, List, [], ◌∷◌}
use frp.Web.Build.{
  Pattern, at_end, maybe_query, anything, text, texts, number, flag, Rule, plain, BuildPlugin,
  commons_chunk, html, module_replacement, define, uglify_js, vue_loader, DevServer, BuildConfig,
}

abbrev pub frps_favicon : Pattern
frps_favicon = record { alternatives = "favicon.png" ∷ []; rest = at_end }

-- `module.rules`
abbrev pub frps_rules : (String → String) → List Rule
frps_rules resolve =
    record {
      test = record { alternatives = ".vue" ∷ []; rest = at_end };
      exclude = none;
      use_loaders = plain "vue-loader" ∷ [];
    }
    ∷ record {
      test = record { alternatives = ".js" ∷ []; rest = at_end };
      exclude = some (record { alternatives = "node_modules" ∷ []; rest = anything });
      use_loaders = plain "babel-loader" ∷ [];
    }
    ∷ record {
      test = record { alternatives = ".html" ∷ []; rest = at_end };
      exclude = none;
      use_loaders =
          record {
            loader = "html-loader";
            options =
                ("root", text (resolve "src"))
                ∷ ("attrs", texts ("img:src" ∷ "link:href" ∷ []))
                ∷ [];
          }
          ∷ [];
    }
    ∷ record {
      test = record { alternatives = ".less" ∷ []; rest = at_end };
      exclude = none;
      use_loaders =
          plain "style-loader"
          ∷ plain "css-loader"
          ∷ plain "postcss-loader"
          ∷ plain "less-loader"
          ∷ [];
    }
    ∷ record {
      test = record { alternatives = ".css" ∷ []; rest = at_end };
      exclude = none;
      use_loaders = plain "style-loader" ∷ plain "css-loader" ∷ plain "postcss-loader" ∷ [];
    }
    ∷ record {
      test = frps_favicon;
      exclude = none;
      use_loaders =
          record { loader = "file-loader"; options = ("name", text "[name].[ext]?[hash]") ∷ [] }
          ∷ [];
    }
    ∷ record {
      test = record {
        alternatives =
            ".png" ∷ ".jpg" ∷ ".jpeg" ∷ ".gif" ∷ ".eot" ∷ ".ttf" ∷ ".woff" ∷ ".woff2" ∷ ".svg"
            ∷ ".svgz" ∷ [];
        rest = maybe_query;
      };
      exclude = some frps_favicon;
      use_loaders = record { loader = "url-loader"; options = ("limit", number 10000) ∷ [] } ∷ [];
    }
    ∷ []

-- `plugins`; the regular expression of the replacement is kept as text.
abbrev pub frps_plugins : List BuildPlugin
frps_plugins =
    commons_chunk ("vendor" ∷ "manifest" ∷ [])
    ∷ html (("favicon", text "src/assets/favicon.ico") ∷ ("template", text "src/index.html") ∷ [])
    ∷ module_replacement "element-ui[\\/\\\\]lib[\\/\\\\]locale[\\/\\\\]lang[\\/\\\\]zh-CN"
        "element-ui/lib/locale/lang/en"
    ∷ define (("process.env.NODE_ENV", text "\"production\"") ∷ [])
    ∷ uglify_js (
        ("sourceMap", flag false)
        ∷ ("comments", flag false)
        ∷ ("compress.warnings", flag false)
        ∷ [])
    ∷ vue_loader
    ∷ []

abbrev pub frps_public_path : Bool → String
frps_public_path dev = if dev then "/assets/" else ""

-- `devServer`.
abbrev pub frps_dev_server : (String → Option String) → Bool → DevServer
frps_dev_server url_pathname dev = record {
  host = "127.0.0.1";
  port = 8010;
  proxy =
      record {
        context = "/api/";
        target = "http://127.0.0.1:8080";
        change_origin = true;
        dropped_prefix = "/api";
      }
      ∷ [];
  history_index = url_pathname (frps_public_path dev);
}

-- `module.exports`, of `options.dev`.
abbrev pub frps_build : (String → String) → (String → Option String) → Bool → BuildConfig
frps_build resolve url_pathname dev = record {
  entry = ("vendor", "./src/main") ∷ [];
  output = record {
    path = resolve "dist";
    filename = if dev then "[name].js" else "[name].js?[chunkhash]";
    chunk_filename = "[id].js?[chunkhash]";
    public_path = frps_public_path dev;
  };
  extensions = ".js" ∷ ".vue" ∷ ".json" ∷ [];
  alias = ("vue$", "vue/dist/vue.esm.js") ∷ ("@", resolve "src") ∷ [];
  rules = frps_rules resolve;
  plugins = frps_plugins;
  dev_server = frps_dev_server url_pathname dev;
}

-- The plugins of web/frps/postcss.config.js.
abbrev pub frps_postcss_plugins : List String
frps_postcss_plugins = "autoprefixer" ∷ []
