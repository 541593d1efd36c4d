-- ===== src/Walk/Batch.antt =====
-- What one event, and one write of a batch, do to the statements that hold.
use git_lex.Base.{
  ◌≡◌, refl, ap, sym, ◌∙◌, inl, inr, Bool, true, false, not, ◌&&◌, ◌||◌, Option, none, some, List,
  [], ◌∷◌, ◌++◌, ok, if◌then◌else◌, Bool-cases,
}
use git_lex.Text.{Text, same, same-eq, starts_with, is_some, strip_prefix-append}
use git_lex.Sets.{member, lookup, NodupKeys, member-append, or_false}
use git_lex.Fallible.{and_then-ok, ok-eq}
use git_lex.Walk.{GraphStore}
use git_lex.Walk.Terms.{
  Op, spo_event_base, event_quads, event_tails, named_event, event_quads, event_tails,
}
use git_lex.Walk.Engine.{WalkState, drain, load_buffer, write_walk_batch, write_batch, written}

-- A statement's line, not one of an event.
abbrev pub IsFact : Text → Type 0
IsFact q = starts_with spo_event_base q ≡ false

abbrev pub NoFacts : List Text → Type 0
NoFacts buffer = (q : Text) → IsFact q → member q buffer ≡ false

abbrev pub over : Option Op → Bool → Bool
over none b = b
over (some Op.assert_op) b = true
over (some Op.retract_op) b = false

abbrev pub is_assert : Op → Bool
is_assert Op.assert_op = true
is_assert Op.retract_op = false

IsFact-same : (q t : Text) → IsFact q → same q (spo_event_base ++ t) ≡ false
IsFact-same q t f = elim (Bool-cases (same q (spo_event_base ++ t))) [
  | inl e ↦
      let starts : starts_with spo_event_base q ≡ true =
        ap (starts_with spo_event_base) (same-eq q (spo_event_base ++ t) e)
        ∙ ap is_some (strip_prefix-append spo_event_base t) in
      cc
  | inr e ↦ e
]

named_event-NoFacts : (name : Text) (tails : List Text) → NoFacts (named_event name tails)
named_event-NoFacts name [] q f = refl
named_event-NoFacts name (tail ∷ tails) q f =
    ap (λ b. b || member q (named_event name tails)) (IsFact-same q (name ++ (b'>' ∷ tail)) f)
    ∙ named_event-NoFacts name tails q f

pub event_quads-NoFacts :
    (digest : Text → Text) (op : Op) (sha graph : Text) (spo : Text × Text × Text)
    → NoFacts (event_quads digest op sha graph spo)
unfolding event_quads
event_quads-NoFacts digest op sha graph (s, p, o) =
    named_event-NoFacts _ (event_tails op sha graph (s, p, o))

true_or : (a b : Bool) → (a || (b || true)) ≡ true
true_or true b = refl
true_or false true = refl
true_or false false = refl

and_false : (a : Bool) → (a && not true) ≡ false
and_false true = refl
and_false false = refl

and_true : (a : Bool) → (a && not false) ≡ a
and_true true = refl
and_true false = refl

module _ {S E : Type 0} (graph : GraphStore S E) where
  -- What holds once the pending effects are written.
  abbrev pub view : Text → WalkState S → Bool
  view q st = over (lookup q st.base_final) (graph.holds q st.store)

  abbrev pub IsTidy : WalkState S → Type 0
  IsTidy st = NodupKeys st.base_final × NoFacts st.nq_buffer

  drain-holds :
      (m : List (Text × Op)) (buffer : List Text) (s : S) (q : Text) (kept : List Text) (t : S)
      → NodupKeys m
      → (member q buffer ≡ true → lookup q m ≡ none)
      → drain graph m buffer s ≡ ok (kept, t)
      → (graph.holds q t || member q kept) ≡ over (lookup q m) (graph.holds q s || member q buffer)
  unfolding drain
  drain-holds [] buffer s q kept t d apart h =
      let e = ok-eq (buffer, s) (kept, t) h in
      ap (λ (p : List Text × S). graph.holds q p.1 || member q p.0) (sym e)
  drain-holds ((line, Op.assert_op) ∷ m) buffer s q kept t (fresh, d) apart h =
      elim (Bool-cases (same q line)) [
        | inl e ↦
            let gone : lookup q m ≡ none = ap (λ x. lookup x m) (same-eq q line e) ∙ fresh in
            rw e (
              drain-holds m (buffer ++ line ∷ []) s q kept t d (λ _. gone) h
              ∙ ap (λ o. over o (graph.holds q s || member q (buffer ++ line ∷ []))) gone
              ∙ ap (λ b. graph.holds q s || b)
                  (member-append q buffer (line ∷ []) ∙ ap (λ b. member q buffer || (b || false)) e)
              ∙ true_or (graph.holds q s) (member q buffer))
        | inr e ↦
            let within : member q (buffer ++ line ∷ []) ≡ member q buffer =
              member-append q buffer (line ∷ [])
              ∙ ap (λ b. member q buffer || (b || false)) e
              ∙ or_false (member q buffer) in
            let there : lookup q m ≡ (if same q line then some Op.assert_op else lookup q m) =
              ap (λ b. if b then some Op.assert_op else lookup q m) (sym e) in
            rw e (
              drain-holds m (buffer ++ line ∷ []) s q kept t d (λ f. there ∙ apart (sym within ∙ f))
                h
              ∙ ap (λ b. over (lookup q m) (graph.holds q s || b)) within)
      ]
  drain-holds ((line, Op.retract_op) ∷ m) buffer s q kept t (fresh, d) apart h =
      let (u, removed, rest) =
        and_then-ok (graph.remove_line line s) (λ s. drain graph m buffer s) (kept, t) h in
      elim (Bool-cases (same q line)) [
        | inl e ↦
            let gone : lookup q m ≡ none = ap (λ x. lookup x m) (same-eq q line e) ∙ fresh in
            let out : member q buffer ≡ false = elim (Bool-cases (member q buffer)) [
              | inl f ↦
                  let g =
                    ap (λ b. if b then some Op.retract_op else lookup q m) (sym e) ∙ apart f in
                  cc
              | inr f ↦ f
            ] in
            rw e (
              drain-holds m buffer u q kept t d (λ _. gone) rest
              ∙ ap (λ o. over o (graph.holds q u || member q buffer)) gone
              ∙ ap (λ b. graph.holds q u || b) out
              ∙ or_false (graph.holds q u)
              ∙ graph.remove_law line q s u removed
              ∙ ap (λ b. graph.holds q s && not b) e
              ∙ and_false (graph.holds q s))
        | inr e ↦
            let there : lookup q m ≡ (if same q line then some Op.retract_op else lookup q m) =
              ap (λ b. if b then some Op.retract_op else lookup q m) (sym e) in
            rw e (
              drain-holds m buffer u q kept t d (λ f. there ∙ apart f) rest
              ∙ ap (λ b. over (lookup q m) (b || member q buffer))
                  (graph.remove_law line q s u removed
                    ∙ ap (λ b. graph.holds q s && not b) e
                    ∙ and_true (graph.holds q s)))
      ]

  load_buffer-holds :
      (kept : List Text) (s t : S) (q : Text)
      → load_buffer graph (kept, s) ≡ ok t
      → graph.holds q t ≡ (graph.holds q s || member q kept)
  load_buffer-holds [] s t q h =
      ap (graph.holds q) (sym (ok-eq s t h)) ∙ sym (or_false (graph.holds q s))
  load_buffer-holds (l ∷ ls) s t q h = graph.load_law (l ∷ ls) q s t h

  write_walk_batch-holds :
      (s : S) (buffer : List Text) (m : List (Text × Op)) (t : S) (q : Text)
      → NodupKeys m
      → NoFacts buffer
      → IsFact q
      → write_walk_batch graph s buffer m ≡ ok t
      → graph.holds q t ≡ over (lookup q m) (graph.holds q s)
  unfolding write_walk_batch
  write_walk_batch-holds s buffer m t q d none_there f h =
      let ((kept, u), drained, loaded) =
        and_then-ok (drain graph m buffer s) (load_buffer graph) t h in
      load_buffer-holds kept u t q loaded
      ∙ drain-holds m buffer s q kept u d (λ g. absurd_of (sym g ∙ none_there q f)) drained
      ∙ ap (λ b. over (lookup q m) (graph.holds q s || b)) (none_there q f)
      ∙ ap (over (lookup q m)) (or_false (graph.holds q s))
    where
      absurd_of : true ≡ false → lookup q m ≡ none
      absurd_of e = cc

  -- A write changes nothing of what holds.
  pub write_batch-view :
      (st after : WalkState S) (q : Text)
      → IsTidy st
      → IsFact q
      → write_batch graph st ≡ ok after
      → (view q after ≡ view q st) × IsTidy after
  unfolding write_batch
  write_batch-view st after q (d, n) f h =
      let (s, wrote, e) =
        and_then-ok (write_walk_batch graph st.store st.nq_buffer st.base_final)
          (λ s. ok (written graph st s)) after h in
      let e = ok-eq (written graph st s) after e in
      rw (sym e) (
        write_walk_batch-holds st.store st.nq_buffer st.base_final s q d n f wrote,
        (tt, λ q f. refl),
      )

  -- After a write the store holds what was to hold.
  pub write_batch-holds :
      (st after : WalkState S) (q : Text)
      → IsTidy st
      → IsFact q
      → write_batch graph st ≡ ok after
      → graph.holds q after.store ≡ view q st
  unfolding write_batch
  write_batch-holds st after q (d, n) f h =
      let (s, wrote, e) =
        and_then-ok (write_walk_batch graph st.store st.nq_buffer st.base_final)
          (λ s. ok (written graph st s)) after h in
      rw (sym (ok-eq (written graph st s) after e))
        (write_walk_batch-holds st.store st.nq_buffer st.base_final s q d n f wrote)
