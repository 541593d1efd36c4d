-- ===== src/Sync/NowView/Copy.antt =====
-- What the now view holds after a refresh.
use git_lex.Base.{
  ◌≡◌, refl, ap, sym, ◌∙◌, inl, inr, Bool, true, false, not, ◌&&◌, ◌||◌, some, List, [], ◌∷◌, ok,
  err, any, Bool-cases, All, if◌then◌else◌,
}
use git_lex.Text.{Text, same, same-eq}
use git_lex.Sync.NowView.{
  Quad, QuadStore, Failure, same_quad, among, now, one, reifies, event_mark, copied, bind_store,
  and_then, subject_iri, remove_all, copy_all, copy_current, copy_unless_event, refresh_subject,
  refresh_now_view,
}
use git_lex.Sync.NowView.Listing.{
  and_kept, and_not, and_right, and_then-ok, and_true, bind_store-ok, copied_from,
  copied_from-among, false_and, final_event, final_fact, graphs-All, in_view, IsOne, ok-eq,
  or_false, or_or, source,
}

module _ {S E : Type 0} (store : QuadStore S E) (is_iri : Text → Bool) where
  remove_all-holds :
      (qs : List Quad) (q : Quad) (s t : S)
      → remove_all store is_iri qs s ≡ ok t
      → store.holds q t ≡ (store.holds q s && not (among q qs))
  unfolding remove_all
  remove_all-holds [] q s t h = ap (store.holds q) (sym (ok-eq s t h)) ∙ and_true (store.holds q s)
  remove_all-holds (r ∷ qs) q s t h =
      let (u, e, f) = bind_store-ok (store.remove r s) (λ s. remove_all store is_iri qs s) t h in
      and_not (same_quad q r) (among q qs) (store.holds q u) (store.holds q s) (store.holds q t)
        (store.remove_law r q s u e) (remove_all-holds qs q u t f)

  pub copy_all-skip :
      (r : Quad) (qs : List Quad) (s : S)
      → same r.predicate reifies ≡ true
      → copy_all store is_iri (r ∷ qs) s ≡ copy_all store is_iri qs s
  unfolding copy_all
  copy_all-skip r qs s g = rw (g, copy_all) refl

  pub copy_all-insert :
      (r : Quad) (qs : List Quad) (s : S)
      → same r.predicate reifies ≡ false
      → copy_all store is_iri (r ∷ qs) s
        ≡ bind_store (store.insert (copied r) s) (λ s. copy_all store is_iri qs s)
  unfolding copy_all
  copy_all-insert r qs s g = rw (g, copy_all) refl

  copy_all-holds :
      (qs : List Quad) (q : Quad) (s t : S)
      → copy_all store is_iri qs s ≡ ok t
      → store.holds q t ≡ (store.holds q s || copied_from q qs)
  unfolding copy_all
  copy_all-holds [] q s t h = ap (store.holds q) (sym (ok-eq s t h)) ∙ or_false (store.holds q s)
  copy_all-holds (r ∷ qs) q s t h = elim (Bool-cases (same r.predicate reifies)) [
    | inl g ↦ rw g (copy_all-holds qs q s t (sym (copy_all-skip r qs s g) ∙ h))
    | inr g ↦
        let (u, e, f) =
          bind_store-ok (store.insert (copied r) s) (λ s. copy_all store is_iri qs s) t
            (sym (copy_all-insert r qs s g) ∙ h) in
        rw g (
          or_or (same_quad q (copied r)) (copied_from q qs) (store.holds q u) (store.holds q s)
            (store.holds q t) (store.insert_law (copied r) q s u e) (copy_all-holds qs q u t f))
  ]

  listed-All :
      (subject : Text) (s : S) (qs : List Quad)
      → store.quads_for_pattern (some subject) one s ≡ ok qs
      → All IsOne qs
  listed-All subject s qs e = graphs-All qs (λ q f. same-eq q.graph one (
      and_right (store.holds q s) (same q.subject subject) (same q.graph one)
        (sym (store.quads_law (some subject) one s qs q e) ∙ f)))

  -- What the view should hold of a quad: a copy of the one graph's, unless it is an event's or a
  -- `rdf:reifies`.
  abbrev pub should_hold : Quad → S → Bool
  should_hold q s =
      not (store.holds (event_mark q.subject) s)
      && (not (same q.predicate reifies) && store.holds (source q) s)

  -- The store after the removal of one subject's quads from the view.
  Removed : Text → S → S → Type 0
  Removed subject s u =
      (q : Quad)
      → store.holds q u
        ≡ (store.holds q s && not (store.holds q s && (same q.subject subject && same q.graph now)))

  Removed-one :
      (subject : Text) (s u : S) (q : Quad)
      → Removed subject s u
      → store.holds (source q) u ≡ store.holds (source q) s
  unfolding Removed
  Removed-one subject s u q r =
      r (source q) ∙ and_kept (store.holds (source q) s) (same q.subject subject)

  -- The right contents after one subject: its quads in the view are what they should be, and every
  -- other quad is as it was.
  abbrev Right : Text → S → S → Type 0
  Right subject s t =
      (q : Quad)
      → store.holds q t
        ≡ (if same q.graph now && same q.subject subject then should_hold q s else store.holds q s)

  event-Right :
      (subject : Text) (s u : S)
      → Removed subject s u
      → store.holds (event_mark subject) s ≡ true
      → Right subject s u
  unfolding Removed
  event-Right subject s u r m q =
      final_event (same q.graph now) (same q.subject subject) (store.holds q s) (store.holds q u)
        (should_hold q s) (r q) (λ e. rw (same-eq q.subject subject e, m) refl)

  fact-Right :
      (subject : Text) (s u t : S) (qs : List Quad)
      → Removed subject s u
      → store.holds (event_mark subject) s ≡ false
      → store.quads_for_pattern (some subject) one u ≡ ok qs
      → copy_all store is_iri qs u ≡ ok t
      → Right subject s t
  unfolding Removed
  fact-Right subject s u t qs r m e f q =
      let listed = store.quads_law (some subject) one u qs (source q) e in
      final_fact (same q.graph now) (same q.subject subject) (store.holds q s) (store.holds q t)
        (should_hold q s) (not (same q.predicate reifies) && among (source q) qs)
        (copy_all-holds qs q u t f
          ∙ ap (λ b. b || copied_from q qs) (r q)
          ∙ ap
              (λ b.
                (store.holds q s
                  && not (store.holds q s && (same q.subject subject && same q.graph now)))
                || b)
              (copied_from-among q qs (listed-All subject u qs e)))
        (λ g.
          ap (λ b. not b && (not (same q.predicate reifies) && store.holds (source q) s))
            (ap (λ x. store.holds (event_mark x) s) (same-eq q.subject subject g) ∙ m)
          ∙ ap (λ b. not (same q.predicate reifies) && b)
              (sym (Removed-one subject s u q r)
                ∙ and_true (store.holds (source q) u)
                ∙ ap (λ b. store.holds (source q) u && (b && true)) (sym g)
                ∙ sym listed))
        (λ g.
          ap (λ b. not (same q.predicate reifies) && b)
            (listed ∙ ap (λ b. store.holds (source q) u && (b && true)) g)
          ∙ sym (false_and (not (same q.predicate reifies)) (store.holds (source q) u)))

  current-Right :
      (subject : Text) (s u t : S) (b : Bool)
      → Removed subject s u
      → store.holds (event_mark subject) s ≡ b
      → copy_current store is_iri subject u b ≡ ok t
      → Right subject s t
  current-Right subject s u t true r m h = rw (sym (ok-eq u t h)) (event-Right subject s u r m)
  current-Right subject s u t false r m h =
      let (qs, e, f) =
        bind_store-ok (store.quads_for_pattern (some subject) one u)
          (λ qs. copy_all store is_iri qs u) t h in
      fact-Right subject s u t qs r m e f

  mark-kept :
      (subject : Text) (s u : S)
      → Removed subject s u
      → store.holds (event_mark subject) u ≡ store.holds (event_mark subject) s
  unfolding Removed
  mark-kept subject s u r =
      r (event_mark subject) ∙ and_kept (store.holds (event_mark subject) s) (same subject subject)

  Removed-remove_all :
      (subject : Text) (s u : S) (stale : List Quad)
      → store.quads_for_pattern (some subject) now s ≡ ok stale
      → remove_all store is_iri stale s ≡ ok u
      → Removed subject s u
  unfolding Removed
  Removed-remove_all subject s u stale e f q =
      remove_all-holds stale q s u f
      ∙ ap (λ b. store.holds q s && not b) (store.quads_law (some subject) now s stale q e)

  pub refresh_subject-iri :
      (term : Text) (s : S)
      → is_iri (subject_iri term) ≡ true
      → refresh_subject store is_iri term s
        ≡ bind_store (store.quads_for_pattern (some (subject_iri term)) now s) (λ stale.
          and_then
            (remove_all store is_iri stale s)
            (λ s. copy_unless_event store is_iri (subject_iri term) s))
  unfolding refresh_subject
  refresh_subject-iri term s e = rw (e, refresh_subject) refl

  refresh_subject-bad :
      (term : Text) (s : S)
      → is_iri (subject_iri term) ≡ false
      → refresh_subject store is_iri term s ≡ err (Failure.not_an_iri term)
  unfolding refresh_subject
  refresh_subject-bad term s e = rw (e, refresh_subject) refl

  refresh_subject-Right :
      (term : Text) (s t : S)
      → refresh_subject store is_iri term s ≡ ok t
      → Right (subject_iri term) s t
  refresh_subject-Right term s t h =
      let i = subject_iri term in
      elim (Bool-cases (is_iri i)) [
        | inr e ↦ let g = refresh_subject-bad term s e in cc
        | inl e ↦
            let (stale, a, f) =
              bind_store-ok (store.quads_for_pattern (some i) now s)
                (λ stale.
                  and_then (remove_all store is_iri stale s)
                    (λ s. copy_unless_event store is_iri i s))
                t (sym (refresh_subject-iri term s e) ∙ h) in
            let (u, b, g) =
              and_then-ok (remove_all store is_iri stale s)
                (λ s. copy_unless_event store is_iri i s) t f in
            let (mark, c, k) =
              bind_store-ok (store.contains (event_mark i) u) (λ b. copy_current store is_iri i u b)
                t g in
            let r = Removed-remove_all i s u stale a b in
            current-Right i s u t mark r
              (sym (mark-kept i s u r) ∙ sym (store.contains_law (event_mark i) u mark c)) k
      ]

  -- A quad of the view that is there exactly if it should be.
  abbrev pub IsCurrent : Quad → S → Type 0
  IsCurrent q s = store.holds q s ≡ should_hold q s

  Right-should_hold :
      (subject : Text) (q : Quad) (s t : S) → Right subject s t → should_hold q t ≡ should_hold q s
  Right-should_hold subject q s t r =
      ap (λ b. not b && (not (same q.predicate reifies) && store.holds (source q) t))
        (r (event_mark q.subject))
      ∙ ap
          (λ b. not (store.holds (event_mark q.subject) s) && (not (same q.predicate reifies) && b))
          (r (source q))

  Right-IsCurrent :
      (subject : Text) (q : Quad) (s u : S)
      → Right subject s u
      → q.graph ≡ now
      → (same q.subject subject ≡ false → IsCurrent q s)
      → IsCurrent q u
  Right-IsCurrent subject q s u r n old = elim (Bool-cases (same q.subject subject)) [
    | inl e ↦
        r q
        ∙ ap (λ b. if b then should_hold q s else store.holds q s)
            (in_view q.graph (same q.subject subject) n ∙ e)
        ∙ sym (Right-should_hold subject q s u r)
    | inr e ↦
        r q
        ∙ ap (λ b. if b then should_hold q s else store.holds q s)
            (in_view q.graph (same q.subject subject) n ∙ e)
        ∙ old e
        ∙ sym (Right-should_hold subject q s u r)
  ]

  -- When the refresh succeeds, and the view was current for every subject that is not among the
  -- refreshed ones, then it is current for all: it holds a quad exactly if the one graph holds its
  -- source, the quad is no `rdf:reifies`, and its subject is no event.
  pub refresh_now_view-IsCurrent :
      (terms : List Text) (s t : S)
      → refresh_now_view store is_iri terms s ≡ ok t
      → ((q : Quad)
          → q.graph ≡ now
          → any (λ term. same q.subject (subject_iri term)) terms ≡ false
          → IsCurrent q s)
      → (q : Quad) → q.graph ≡ now
      → IsCurrent q t
  unfolding refresh_now_view
  refresh_now_view-IsCurrent [] s t h old q n = rw (sym (ok-eq s t h)) (old q n refl)
  refresh_now_view-IsCurrent (term ∷ terms) s t h old q n =
      let (u, e, f) =
        and_then-ok (refresh_subject store is_iri term s)
          (λ s. refresh_now_view store is_iri terms s) t h in
      refresh_now_view-IsCurrent terms u t f
        (λ q n a.
          Right-IsCurrent (subject_iri term) q s u (refresh_subject-Right term s u e) n (λ g.
            old q n (ap (λ b. b || any (λ term. same q.subject (subject_iri term)) terms) g ∙ a)))
        q n
