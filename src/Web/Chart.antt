-- ===== src/Web/Chart.antt =====
-- web/frps/src/utils/chart.js: the options that the three charts hand to echarts. What echarts does
-- with them, and the parts of an option that are the same for every input (colours, radii, grid), are
-- left out. `file_size` stands for Humanize.fileSize of the package humanize-plus.
pub mod Pies
pub mod Week
use frp.Prelude.{
  ℕ, zero, suc, ◌+◌, String, ◌⋅◌, show_ℕ, List, [], ◌∷◌, ◌++◌, reverse, Option, none, some, ℤ, pos,
  sub_ℕ, is_zero, str_eq, if◌then◌else◌,
}
use frp.Calendar.{Date, new_date}

pub record Slice : Type 0 where
  pub value : ℤ
  pub name : String

pub record Pie : Type 0 where
  pub title : String
  pub subtext : String
  pub slices : List Slice

pub record Bars : Type 0 where
  pub dates : List String
  pub traffic_in : List ℤ
  pub traffic_out : List ℤ

-- `proxy_type_count`: an object with a number for each type of which frps has counted a proxy.
abbrev pub TypeCounts : Type 0
TypeCounts = List (String × ℤ)

unfoldable pub count_of : String → TypeCounts → Option ℤ
count_of key [] = none
count_of key ((k, n) ∷ counts) = if str_eq k key then some n else count_of key counts

-- DrawTrafficChart
unfoldable pub traffic_chart : ℤ → ℤ → Pie
traffic_chart traffic_in traffic_out = record {
  title = "Network Traffic";
  subtext = "today";
  slices =
      record { value = traffic_in; name = "Traffic In" }
      ∷ record { value = traffic_out; name = "Traffic Out" }
      ∷ [];
}

-- `if (counts.key != null && counts.key != 0) data.push({value: counts.key, name: label})`
unfoldable pub push_slice : TypeCounts → String → String → List Slice → List Slice
unfolding count_of
push_slice counts key label slices = elim (count_of key counts) [
  | none ↦ slices
  | some n ↦ if is_zero n then slices else slices ++ record { value = n; name = label } ∷ []
]

unfoldable pub proxy_slices : TypeCounts → List Slice
unfolding push_slice
proxy_slices counts =
    let add = push_slice counts in
    add "xtcp" "XTCP" (
      add "sudp" "SUDP" (
        add "stcp" "STCP"
          (add "https" "HTTPS" (add "http" "HTTP" (add "udp" "UDP" (add "tcp" "TCP" []))))))

-- DrawProxyChart
unfoldable pub proxy_chart : TypeCounts → Pie
unfolding proxy_slices
proxy_chart counts = record { title = "Proxies"; subtext = "now"; slices = proxy_slices counts }

-- `now.getFullYear() + '-' + (now.getMonth() + 1) + '-' + now.getDate()`
unfoldable pub date_label : Date → String
unfolding show_ℕ
date_label d = show_ℕ d.year ⋅ "-" ⋅ show_ℕ (d.month + 1) ⋅ "-" ⋅ show_ℕ d.day

-- The loop over the days, with the rounds left: `now` moves one day on after each label.
unfoldable pub push_dates : ℕ → Date → List String → List String
unfolding date_label new_date
push_dates zero now dates = dates
push_dates (suc left) now dates =
    push_dates left (new_date now.year now.month (pos (now.day + 1))) (dates ++ date_label now ∷ [])

unfoldable pub week_dates : Date → List String
unfolding push_dates
week_dates today = push_dates 7 (new_date today.year today.month (sub_ℕ today.day 6)) []

-- DrawProxyTrafficChart. The two arrays are reversed in place; nothing else holds them.
unfoldable pub proxy_traffic_chart : Date → List ℤ → List ℤ → Bars
unfolding week_dates
proxy_traffic_chart today traffic_in traffic_out = record {
  dates = week_dates today;
  traffic_in = reverse traffic_in;
  traffic_out = reverse traffic_out;
}

-- A hovered bar, as echarts describes it to the tooltip's formatter.
pub record Hovered : Type 0 where
  pub name : String
  pub color : String
  pub series_name : String
  pub value : ℤ

module _ (file_size : ℤ → String) where
  -- The tooltip of the traffic pie.
  unfoldable pub traffic_tooltip : Slice → String → String
  traffic_tooltip v percent = file_size v.value ⋅ " (" ⋅ percent ⋅ "%)"

  unfoldable pub tooltip_line : Hovered → String
  tooltip_line v =
      ("<span style=\"display:inline-block;margin-right:5px;"
        ⋅ "border-radius:10px;width:9px;height:9px;background-color:" ⋅ v.color ⋅ "\"></span>")
      ⋅ v.series_name
      ⋅ ": "
      ⋅ file_size v.value
      ⋅ "<br/>"

  unfoldable pub tooltip_lines : String → List Hovered → String
  unfolding tooltip_line
  tooltip_lines html [] = html
  tooltip_lines html (v ∷ vs) = tooltip_lines (html ⋅ tooltip_line v) vs

  -- The tooltip of the bar chart.
  unfoldable pub bars_tooltip : List Hovered → String
  unfolding tooltip_lines
  bars_tooltip [] = tooltip_lines "" []
  bars_tooltip (v ∷ vs) = tooltip_lines ("" ⋅ v.name ⋅ "<br/>") (v ∷ vs)
