-- ===== src/Risk/SeenIds.antt =====
-- The window of identifiers of recent orders.
use text.Mathlib.Text.{◌==◌ as str_eq}
use text.Mathlib.TextEquality.{eq_iff}
use rust_hft.Common.{
  ℕ, ◌≤◌, ◌<◌, ◌≡◌, refl, sym, ◌∙◌, leb→le, false, Bool-cases, ◌||◌, some, List, [], ◌∷◌, ◌++◌,
  String, inl, inr, Result, ok, err, arith, length, length-append, leb, if◌then◌else◌,
}
use mathlib.Core.Path.{subst}
use rust_hft.Double.{Double}
use rust_hft.Types.{Signal, ValidatedOrder}
use rust_hft.Risk.Defs.{
  RiskChecker, Env, RiskError, contains, insert_id, remove_id, recent, forget, make_room,
  note_order, check, max_seen_order_ids,
}
use rust_hft.Risk.Gates.{Explains, check-Explains}

-- No identifier stands twice.
abbrev pub IsDistinct : List String → Type 0
IsDistinct [] = Unit
IsDistinct (x ∷ xs) = (contains x xs ≡ false) × IsDistinct xs

contains-append :
    (x : String) (ys zs : List String) → contains x (ys ++ zs) ≡ (contains x ys || contains x zs)
contains-append x [] zs = refl
contains-append x (y ∷ ys) zs = ground (arith, contains-append x ys zs)

contains-insert_id :
    (x y : String) (ys : List String) → contains x (insert_id y ys) ≡ (str_eq y x || contains x ys)
contains-insert_id x y ys = ground (arith, eq_iff y x)

contains-remove_id :
    (x y : String) (ys : List String)
    → contains x (remove_id y ys) ≡ (if str_eq y x then false else contains x ys)
contains-remove_id x y [] = ground arith
contains-remove_id x y (z ∷ zs) =
    ground (arith, contains-remove_id x y zs, eq_iff z x, eq_iff y x, eq_iff z y)

IsDistinct-append :
    (xs : List String) (y : String)
    → IsDistinct xs
    → contains y xs ≡ false
    → IsDistinct (xs ++ (y ∷ []))
IsDistinct-append [] y h n = (refl, tt)
IsDistinct-append (x ∷ xs) y h n =
    ground (arith, IsDistinct-append xs y, contains-append x xs (y ∷ []), eq_iff x y, eq_iff y x)

still_same :
    (x o : String) (q ids : List String)
    → contains x ids ≡ contains x (o ∷ q)
    → contains o q ≡ false
    → contains x (remove_id o ids) ≡ contains x q
still_same x o q ids h n = ground (arith, contains-remove_id x o ids, eq_iff o x)

not_later : (x o : String) (q : List String) → contains x (o ∷ q) ≡ false → contains x q ≡ false
not_later x o q h = ground arith

-- The set and the queue hold the same identifiers, none twice, and no more than the cap.
pub record IsWindow (ids queue : List String) : Type 0 where
  pub same : (x : String) → contains x ids ≡ contains x queue
  pub distinct : IsDistinct queue
  pub bounded : length queue ≤ max_seen_order_ids

module _ {F : Type 0} ⦃d : Double F⦄ where
  abbrev pub HasWindow : RiskChecker F → Type 0
  HasWindow s = IsWindow s.seen_order_ids s.seen_order_queue

  -- Room for one more identifier, and none that was not there before.
  record HasRoom (s s' : RiskChecker F) : Type 0 where
    same : (x : String) → contains x s'.seen_order_ids ≡ contains x s'.seen_order_queue
    distinct : IsDistinct s'.seen_order_queue
    room : length s'.seen_order_queue < max_seen_order_ids
    no_new :
        (x : String)
        → contains x s.seen_order_queue ≡ false
        → contains x s'.seen_order_queue ≡ false

  forget_lem :
      (q : List String) (s : RiskChecker F)
      → s.seen_order_queue ≡ q
      → HasWindow s
      → max_seen_order_ids ≤ length q
      → HasRoom s (forget q s)
  forget_lem [] s e w full = absurd (omega arith)
  forget_lem (o ∷ q) s e w full =
      let wd : IsDistinct (o ∷ q) = simp e at w.distinct in
      let wb : length (o ∷ q) ≤ max_seen_order_ids = simp e at w.bounded in
      record {
        same = λ x. still_same x o q s.seen_order_ids (simp e at (w.same x)) wd.0;
        distinct = wd.1;
        room = omega arith;
        no_new = λ x h. not_later x o q (simp e at h);
      }

  make_room_lem : (s : RiskChecker F) → HasWindow s → HasRoom s (make_room s)
  unfolding make_room
  make_room_lem s w = elim (Bool-cases (leb max_seen_order_ids (length s.seen_order_queue))) [
    | inl e ↦ rw e (forget_lem s.seen_order_queue s refl w (leb→le _ _ e))
    | inr e ↦
        rw e
          (record { same = w.same; distinct = w.distinct; room = ground arith; no_new = λ x h. h })
  ]

  note_order-HasWindow :
      (s : RiskChecker F) (id : String) (now : ℕ)
      → HasWindow s
      → contains id s.seen_order_ids ≡ false
      → HasWindow (note_order s id now)
  unfolding note_order
  note_order-HasWindow s id now w n =
      let room = make_room_lem s w in
      let s' = make_room s in
      let n' = room.no_new id (sym (w.same id) ∙ n) in
      record {
        same = λ x. ground (
          arith,
          contains-insert_id x id s'.seen_order_ids,
          contains-append x s'.seen_order_queue (id ∷ []),
          room.same x,
        );
        distinct = IsDistinct-append s'.seen_order_queue id room.distinct n';
        bounded = omega (arith, room.room, length-append s'.seen_order_queue (id ∷ []));
      }

  pub Explains-HasWindow :
      (s : RiskChecker F) (env : Env F) (signal : Signal F) (s' : RiskChecker F)
      (r : Result (ValidatedOrder F) (RiskError F))
      → Explains s env signal (some (s', r))
      → HasWindow s
      → HasWindow s'
  Explains-HasWindow s env signal s' (err e) (inl h) w = subst HasWindow (sym h) w
  Explains-HasWindow s env signal s' (err e) (inr h) w =
      subst HasWindow (sym h) (record { same = w.same; distinct = w.distinct; bounded = w.bounded })
  Explains-HasWindow s env signal s' (ok o) (_, fresh, _, h) w = subst HasWindow (sym h) (
      note_order-HasWindow (record s { order_timestamps = recent env.now s.order_timestamps })
        env.uuid env.now (record { same = w.same; distinct = w.distinct; bounded = w.bounded })
        fresh)

  -- Every call of `check` keeps the window of identifiers sound: the set holds just what the queue
  -- holds, no identifier is there twice, and there are at most 10,000.
  pub check-HasWindow :
      (s : RiskChecker F) (env : Env F) (signal : Signal F) (mid : F) (s' : RiskChecker F)
      (r : Result (ValidatedOrder F) (RiskError F))
      → HasWindow s
      → check s env signal mid ≡ some (s', r)
      → HasWindow s'
  check-HasWindow s env signal mid s' r w e =
      Explains-HasWindow s env signal s' r (rw e at (check-Explains s env signal mid)) w
