-- ===== src/Dashboard/Requests.antt =====
-- What requests and a web socket's ticks lead to in src/dashboard/server.rs.
use mathlib.Core.Option.{get_or}
use rust_hft.Common.{
  ◌≡◌, refl, ap, ◌∙◌, Bool, true, false, Option-cases, Option, none, some, List, [], ◌∷◌, ◌++◌,
  String, if◌then◌else◌, All, ◌⊎◌, inl, inr,
}
use rust_hft.Double.{Double}
use rust_hft.Dashboard.Defs.{SharedState, DashboardState, to_dashboard_state}
use rust_hft.Dashboard.Server.{
  Handler, index_handler, chart_js_handler, ws_handler, halt_handler, resume_handler, Assets,
  Server, set_halt, serve, handle_ws, after_json,
}

-- What the last request about the kill switch asks for.
abbrev pub asked : Handler → Option Bool
asked index_handler = none
asked chart_js_handler = none
asked ws_handler = none
asked halt_handler = some true
asked resume_handler = some false

abbrev pub last_asked : Bool → List (Handler × Bool) → Bool
last_asked flag [] = flag
last_asked flag ((h, worked) ∷ requests) = last_asked (get_or (asked h) flag) requests

module _ {F : Type 0} where
  -- Whatever is requested, the kill switch is as the last request for /halt or /resume asks, else as it
  -- was. If every write and removal works, so is the file HALT. Nothing else changes.
  pub serve-switch :
      (assets : Assets) (s : Server F) (requests : List (Handler × Bool))
      → let r = (serve assets s requests).0 in
        (r.state ≡ record (s.state) { halt_flag = last_asked s.state.halt_flag requests })
        × (All (λ q. q.1 ≡ true) requests → r.halt_file ≡ last_asked s.halt_file requests)
  unfolding serve
  serve-switch assets s [] = (refl, λ h. refl)
  serve-switch assets s ((index_handler, worked) ∷ requests) =
      let (a, b) = serve-switch assets s requests in (a, λ h. b h.1)
  serve-switch assets s ((chart_js_handler, worked) ∷ requests) =
      let (a, b) = serve-switch assets s requests in (a, λ h. b h.1)
  serve-switch assets s ((ws_handler, worked) ∷ requests) =
      let (a, b) = serve-switch assets s requests in (a, λ h. b h.1)
  serve-switch assets s ((halt_handler, worked) ∷ requests) =
      let (a, b) = serve-switch assets (set_halt true worked s) requests in
      (a, λ h. b h.1 ∙ ap (λ w. last_asked (if w then true else s.halt_file) requests) h.0)
  serve-switch assets s ((resume_handler, worked) ∷ requests) =
      let (a, b) = serve-switch assets (set_halt false worked s) requests in
      (a, λ h. b h.1 ∙ ap (λ w. last_asked (if w then false else s.halt_file) requests) h.0)

module _ {F : Type 0} ⦃d : Double F⦄ (to_string : DashboardState F → Option String) where
  -- The texts of the states that have one.
  abbrev pub texts : List (SharedState F × Bool) → List String
  texts [] = []
  texts ((s, arrives) ∷ ticks) = elim (to_string (to_dashboard_state s)) [
    | none ↦ texts ticks
    | some json ↦ json ∷ texts ticks
  ]

  -- No message of these ticks failed to be sent.
  abbrev pub Arrived : SharedState F × Bool → Type 0
  Arrived (s, arrives) = (to_string (to_dashboard_state s) ≡ none) ⊎ (arrives ≡ true)

  -- The ticks up to the first message that cannot be sent.
  pub record IsCut (ticks : List (SharedState F × Bool)) (sent : List String) : Type 0 where
    pub before : List (SharedState F × Bool)
    pub last : SharedState F
    pub after : List (SharedState F × Bool)
    pub parts : ticks ≡ before ++ ((last, false) ∷ after)
    pub json : String
    pub has_text : to_string (to_dashboard_state last) ≡ some json
    pub arrived : All Arrived before
    pub sent_is : sent ≡ texts before

  abbrev pub Delivers : List (SharedState F × Bool) → List String × Bool → Type 0
  Delivers ticks (sent, true) = All Arrived ticks × (sent ≡ texts ticks)
  Delivers ticks (sent, false) = IsCut ticks sent

  skipped :
      (s : SharedState F) (arrives : Bool) (ticks : List (SharedState F × Bool))
      → to_string (to_dashboard_state s) ≡ none
      → (r : List String × Bool) → Delivers ticks r
      → Delivers ((s, arrives) ∷ ticks) r
  skipped s arrives ticks e (sent, true) (h, k) = ((inl e, h), rw (texts, e) k)
  skipped s arrives ticks e (sent, false) h = record {
    before = (s, arrives) ∷ h.before;
    last = h.last;
    after = h.after;
    parts = ap (◌∷◌ (s, arrives)) h.parts;
    json = h.json;
    has_text = h.has_text;
    arrived = (inl e, h.arrived);
    sent_is = rw (texts, e) h.sent_is;
  }

  arrived_first :
      (s : SharedState F) (ticks : List (SharedState F × Bool)) (json : String)
      → to_string (to_dashboard_state s) ≡ some json
      → (r : List String × Bool) → Delivers ticks r
      → Delivers ((s, true) ∷ ticks) (json ∷ r.0, r.1)
  arrived_first s ticks json e (sent, true) (h, k) =
      ((inr refl, h), rw (texts, e) (ap (◌∷◌ json) k))
  arrived_first s ticks json e (sent, false) h = record {
    before = (s, true) ∷ h.before;
    last = h.last;
    after = h.after;
    parts = ap (◌∷◌ (s, true)) h.parts;
    json = h.json;
    has_text = h.has_text;
    arrived = (inr refl, h.arrived);
    sent_is = rw (texts, e) (ap (◌∷◌ json) h.sent_is);
  }

  by_send :
      (s : SharedState F) (arrives : Bool) (ticks : List (SharedState F × Bool)) (json : String)
      → to_string (to_dashboard_state s) ≡ some json
      → (r : List String × Bool) → Delivers ticks r
      → Delivers ((s, arrives) ∷ ticks) (after_json to_string (some json) arrives r)
  by_send s true ticks json e r h = arrived_first s ticks json e r h
  by_send s false ticks json e r h = record {
    before = [];
    last = s;
    after = ticks;
    parts = refl;
    json = json;
    has_text = e;
    arrived = tt;
    sent_is = refl;
  }

  -- A client gets the texts of the states at the ticks, in order and without those that have none:
  -- all of them as long as its socket takes the messages, and those before the first message that
  -- cannot be sent, after which the loop ends.
  pub handle_ws-Delivers :
      (ticks : List (SharedState F × Bool)) → Delivers ticks (handle_ws to_string ticks)
  unfolding handle_ws
  handle_ws-Delivers [] = (tt, refl)
  handle_ws-Delivers ((s, arrives) ∷ ticks) =
      elim (Option-cases (to_string (to_dashboard_state s))) [
        | inl e ↦
            rw e (skipped s arrives ticks e (handle_ws to_string ticks) (handle_ws-Delivers ticks))
        | inr (json, e) ↦
            rw e (
              by_send s arrives ticks json e (handle_ws to_string ticks) (handle_ws-Delivers ticks))
      ]
