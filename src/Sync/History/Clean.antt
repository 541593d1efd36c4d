-- ===== src/Sync/History/Clean.antt =====
-- What the scans of `history_counts` hold when no event has two objects.
use git_lex.Base.{
  ℕ, ◌≡◌, refl, ap, sym, ◌∙◌, inl, inr, Bool, true, false, Option, none, some, List, [], ◌∷◌, ◌++◌,
  All, Bool-cases, append_assoc, append-nil, if◌then◌else◌,
}
use mathlib.Core.Path.{ap₂}
use git_lex.Text.{Text, same, same_sym}
use git_lex.Sets.{lookup, put, NodupKeys}
use git_lex.Sync.History.{Scan, scan_objects, counted, order_of, event_order}
use git_lex.Sync.History.Slots.{order_list, orders}

abbrev once : List (Text × Text) → Scan
once [] = []
once ((event, object) ∷ quads) = (event, (object, 1)) ∷ once quads

-- The ordinal of the commit that a direction names, when it has one.
abbrev pub order_in : List (Text × Option ℕ) → Option Text → List ℕ
order_in ordinal none = []
order_in ordinal (some commit) = order_list (order_of ordinal commit)

-- The ordinals of one direction's commits, over the events of the statement.
abbrev pub orders_in :
    List (Text × Option ℕ) → List (Text × Text) → Text → List (Text × Text) → List ℕ
orders_in ordinal named stmt [] = []
orders_in ordinal named stmt ((event, s) ∷ reifies) =
    (if same stmt s then order_in ordinal (lookup event named) else [])
    ++ orders_in ordinal named stmt reifies

abbrev Fresh : Scan → Text × Text → Type 0
Fresh out (k, _) = lookup k out ≡ none

unequal :
    {V : Type 0} (b : Bool) (v : V) (o : Option V)
    → (if b then some v else o) ≡ none
    → (b ≡ false) × (o ≡ none)
unequal true v o h = cc
unequal false v o h = (refl, h)

put-fresh : (k : Text) (v : Text × ℕ) (m : Scan) → lookup k m ≡ none → put k v m ≡ m ++ (k, v) ∷ []
put-fresh k v [] h = refl
put-fresh k v ((j, w) ∷ m) h =
    let (apart, later) = unequal (same k j) w (lookup k m) h in
    ap (λ b. if b then (k, v) ∷ m else (j, w) ∷ put k v m) apart
    ∙ ap (λ t. (j, w) ∷ t) (put-fresh k v m later)

lookup-snoc :
    (k e : Text) (v : Text × ℕ) (m : Scan)
    → lookup k m ≡ none
    → same k e ≡ false
    → lookup k (m ++ (e, v) ∷ []) ≡ none
lookup-snoc k e v [] h n = ap (λ b. if b then some v else none) n
lookup-snoc k e v ((j, w) ∷ m) h n =
    let (apart, later) = unequal (same k j) w (lookup k m) h in
    ap (λ b. if b then some w else lookup k (m ++ (e, v) ∷ [])) apart ∙ lookup-snoc k e v m later n

Fresh-snoc :
    (e : Text) (v : Text × ℕ) (out : Scan) (quads : List (Text × Text))
    → All (Fresh out) quads
    → lookup e quads ≡ none
    → All (Fresh (out ++ (e, v) ∷ [])) quads
Fresh-snoc e v out [] f h = tt
Fresh-snoc e v out ((k, x) ∷ quads) (here, later) h =
    let (apart, rest) = unequal (same e k) x (lookup e quads) h in
    (lookup-snoc k e v out here (same_sym k e ∙ apart), Fresh-snoc e v out quads later rest)

scan_objects-append :
    (quads : List (Text × Text)) (out : Scan)
    → NodupKeys quads
    → All (Fresh out) quads
    → scan_objects quads out ≡ out ++ once quads
unfolding scan_objects
scan_objects-append [] out d f = sym (append-nil out)
scan_objects-append ((e, x) ∷ quads) out (apart, d) (here, later) =
    ap (λ o. scan_objects quads (put e (counted x o) out)) here
    ∙ ap (scan_objects quads) (put-fresh e (x, 1) out here)
    ∙ scan_objects-append quads (out ++ (e, (x, 1)) ∷ []) d
        (Fresh-snoc e (x, 1) out quads later apart)
    ∙ append_assoc out ((e, (x, 1)) ∷ []) (once quads)

Fresh-nil : (quads : List (Text × Text)) → All (Fresh []) quads
Fresh-nil [] = tt
Fresh-nil (q ∷ quads) = (refl, Fresh-nil quads)

lookup-once :
    (ordinal : List (Text × Option ℕ)) (event : Text) (named : List (Text × Text))
    → order_list (event_order ordinal (lookup event (once named)))
      ≡ order_in ordinal (lookup event named)
lookup-once ordinal event [] = refl
lookup-once ordinal event ((e, c) ∷ named) = elim (Bool-cases (same event e)) [
  | inl h ↦ rw h refl
  | inr h ↦ rw h (lookup-once ordinal event named)
]

orders-once :
    (ordinal : List (Text × Option ℕ)) (named : List (Text × Text)) (stmt : Text)
    (reifies : List (Text × Text))
    → orders ordinal (once named) stmt (once reifies) ≡ orders_in ordinal named stmt reifies
orders-once ordinal named stmt [] = refl
orders-once ordinal named stmt ((event, s) ∷ reifies) =
    ap₂ (λ (a b : List ℕ). (if same stmt s then a else []) ++ b) (lookup-once ordinal event named)
      (orders-once ordinal named stmt reifies)

-- Over clean events the scans keep every quad.
pub orders-scan_objects :
    (ordinal : List (Text × Option ℕ)) (named : List (Text × Text)) (stmt : Text)
    (reifies : List (Text × Text))
    → NodupKeys named
    → NodupKeys reifies
    → orders ordinal (scan_objects named []) stmt (scan_objects reifies [])
      ≡ orders_in ordinal named stmt reifies
orders-scan_objects ordinal named stmt reifies dn dr =
    ap₂ (λ (a b : Scan). orders ordinal a stmt b)
      (scan_objects-append named [] dn (Fresh-nil named))
      (scan_objects-append reifies [] dr (Fresh-nil reifies))
    ∙ orders-once ordinal named stmt reifies
