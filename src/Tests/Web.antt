-- ===== src/Tests/Web.antt =====
-- The dashboard's server on concrete inputs.
use rust_hft.Common.{Bool, List, ◌≡◌, true, false, Option, some, [], ◌∷◌, String, All}
use rust_hft.Common.Int.{ℤ}
use rust_hft.Dashboard.{DashboardState}
use rust_hft.Dashboard.Server.{
  Handler, Assets, Server, index_handler, halt_handler, resume_handler, serve, handle_ws,
}
use rust_hft.Dashboard.Requests.{Delivers, serve-switch, handle_ws-Delivers}
use rust_hft.Tests.Data.{decimal_double, shared}

abbrev assets : Assets
assets = record { dashboard_html = "<html>"; chart_js = "chart" }

abbrev server : Server ℤ
server = record { state = shared; halt_file = false }

-- The page, a halt, a resume and a halt again.
abbrev requests : List (Handler × Bool)
requests =
    (index_handler, true)
    ∷ (halt_handler, true)
    ∷ (resume_handler, true)
    ∷ (halt_handler, true)
    ∷ []

serve-switch_example :
    let r = (serve assets server requests).0 in
    (r.state ≡ record shared { halt_flag = true })
    × (All (λ q. q.1 ≡ true) requests → r.halt_file ≡ true)
serve-switch_example = serve-switch assets server requests

abbrev to_string : DashboardState ℤ → Option String
to_string s = some s.symbol

-- Two ticks, and the second message is lost.
handle_ws-Delivers_example :
    Delivers to_string
      ((shared, true) ∷ (shared, false) ∷ [])
      (handle_ws to_string ((shared, true) ∷ (shared, false) ∷ []))
handle_ws-Delivers_example = handle_ws-Delivers to_string ((shared, true) ∷ (shared, false) ∷ [])
