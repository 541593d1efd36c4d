-- ===== src/Tests/Graphs.antt =====
-- The one graph of a store that is a list of lines.
use git_lex.Base.{
  ℕ, zero, suc, ◌≤◌, ◌<◌, ◌≡◌, refl, ap, sym, ◌∙◌, inl, inr, Bool, true, false, not, ◌&&◌, ◌||◌,
  Option, none, some, List, [], ◌∷◌, ◌++◌, ok, keep, keep-true, keep-false, length, arith,
  Bool-cases, if◌then◌else◌,
}
use git_lex.Text.{Text, codes, same, same-eq, same_refl}
use git_lex.Sets.{member, member-append}
use git_lex.Fallible.{ok-eq}
use git_lex.Walk.{GraphStore}
use git_lex.Walk.Terms.{unbracketed, file_id_of, file_id_line}
use git_lex.Walk.Clear.{clear_graph_in_batches, IsCleared, clear_graph_in_batches-IsCleared}

abbrev pub drop_line : Text → List Text → List Text
drop_line l s = keep (λ q. not (same q l)) s

pub member-drop_line :
    (q l : Text) (s : List Text) → member q (drop_line l s) ≡ (member q s && not (same q l))
member-drop_line q l [] = refl
member-drop_line q l (x ∷ s) = elim (Bool-cases (same x l)) [
  | inl e ↦
      ap (member q) (keep-false (λ z. not (same z l)) x s (ap not e))
      ∙ member-drop_line q l s
      ∙ dropped (same q x) (member q s) (same q l) (λ f. ap (λ z. same z l) (same-eq q x f) ∙ e)
  | inr e ↦
      ap (member q) (keep-true (λ z. not (same z l)) x s (ap not e))
      ∙ ap (λ b. same q x || b) (member-drop_line q l s)
      ∙ stayed (same q x) (member q s) (same q l) (λ f. ap (λ z. same z l) (same-eq q x f) ∙ e)
]
  where
    dropped : (a m n : Bool) → (a ≡ true → n ≡ true) → (m && not n) ≡ ((a || m) && not n)
    dropped true m true h = ground arith
    dropped true m false h = ground (arith, h)
    dropped false m n h = refl

    stayed : (a m n : Bool) → (a ≡ true → n ≡ false) → (a || (m && not n)) ≡ ((a || m) && not n)
    stayed true m true h = ground (arith, h)
    stayed true m false h = refl
    stayed false m n h = refl

abbrev add_file : Text → Option (Text × Text) → List Text → List Text
add_file iri none files = files
add_file iri (some (t, f)) files = if same (unbracketed t) iri then f ∷ files else files

abbrev files_of : Text → List Text → List Text
files_of iri [] = []
files_of iri (l ∷ ls) = add_file iri (file_id_of l) (files_of iri ls)

add_file-kept :
    (iri : Text) (o : Option (Text × Text)) (files : List Text) (f : Text)
    → member f files ≡ true
    → member f (add_file iri o files) ≡ true
add_file-kept iri none files f m = m
add_file-kept iri (some (t, g)) files f m = elim (Bool-cases (same (unbracketed t) iri)) [
  | inl e ↦ rw e (right (same f g) (member f files) m)
  | inr e ↦ rw e m
]
  where
    right : (a b : Bool) → b ≡ true → (a || b) ≡ true
    right true b h = refl
    right false b h = h

pub files_of-edge :
    (term file : Text) (s : List Text)
    → file_id_of (file_id_line term file) ≡ some (term, file)
    → member (file_id_line term file) s ≡ true
    → member file (files_of (unbracketed term) s) ≡ true
files_of-edge term file [] e m = cc
files_of-edge term file (l ∷ ls) e m = elim (Bool-cases (same (file_id_line term file) l)) [
  | inl s ↦
      ap (λ o. member file (add_file (unbracketed term) o (files_of (unbracketed term) ls)))
        (ap file_id_of (sym (same-eq (file_id_line term file) l s)) ∙ e)
      ∙ ap
          (λ b.
            member file
              (if b then file ∷ files_of (unbracketed term) ls else files_of (unbracketed term) ls))
          (same_refl (unbracketed term))
      ∙ ap (λ b. b || member file (files_of (unbracketed term) ls)) (same_refl file)
  | inr s ↦
      add_file-kept (unbracketed term) (file_id_of l) (files_of (unbracketed term) ls) file (
        files_of-edge term file ls e
          (ap (λ b. b || member (file_id_line term file) ls) (sym s) ∙ m))
]

abbrev take : ℕ → List Text → List Text
take zero s = []
take (suc n) [] = []
take (suc n) (x ∷ s) = x ∷ take n s

abbrev drop_lines : List Text → List Text → List Text
drop_lines [] s = s
drop_lines (l ∷ ls) s = drop_lines ls (drop_line l s)

drop_line-shrinks : (l : Text) (s : List Text) → length (drop_line l s) ≤ length s
drop_line-shrinks l [] = omega arith
drop_line-shrinks l (x ∷ s) = elim (Bool-cases (same x l)) [
  | inl e ↦
      let k = ap length (keep-false (λ z. not (same z l)) x s (ap not e)) in
      omega (arith, k, drop_line-shrinks l s)
  | inr e ↦
      let k = ap length (keep-true (λ z. not (same z l)) x s (ap not e)) in
      omega (arith, k, drop_line-shrinks l s)
]

drop_line-head : (l : Text) (s : List Text) → length (drop_line l (l ∷ s)) ≤ length s
drop_line-head l s =
    let k = ap length (keep-false (λ z. not (same z l)) l s (ap not (same_refl l))) in
    omega (arith, k, drop_line-shrinks l s)

drop_lines-shrinks : (ls s : List Text) → length (drop_lines ls s) ≤ length s
drop_lines-shrinks [] s = omega arith
drop_lines-shrinks (l ∷ ls) s =
    omega (arith, drop_line-shrinks l s, drop_lines-shrinks ls (drop_line l s))

shrink :
    (n : ℕ) (q : Text) (qs s : List Text) → take n s ≡ q ∷ qs → length (drop_line q s) < length s
shrink zero q qs s h = cc
shrink (suc n) q qs [] h = cc
shrink (suc n) q qs (x ∷ s) h =
    let e : x ≡ q = cc in ap-lt x s (drop_line-head x s) (ap (λ l. length (drop_line l (x ∷ s))) e)
  where
    ap-lt :
        (x : Text) (s : List Text)
        → length (drop_line x (x ∷ s)) ≤ length s
        → length (drop_line x (x ∷ s)) ≡ length (drop_line q (x ∷ s))
        → length (drop_line q (x ∷ s)) < length (x ∷ s)
    ap-lt x s a b = omega (arith, a, b)

pub nothing_left : (n : ℕ) (s : List Text) (q : Text) → take (suc n) s ≡ [] → member q s ≡ false
nothing_left n [] q h = refl
nothing_left n (x ∷ s) q h = cc

pub shrinks :
    (n : ℕ) (q : Text) (qs s t : List Text)
    → take n s ≡ q ∷ qs
    → drop_lines (q ∷ qs) s ≡ t
    → length t < length s
shrinks n q qs s t h k =
    let e = ap length k in
    omega (arith, e, shrink n q qs s h, drop_lines-shrinks qs (drop_line q s))

abbrev pub memory : GraphStore (List Text) Text
memory = record {
  holds = member;
  graph_name = λ iri. ok iri;
  remove_line = λ l s. ok (drop_line l s);
  load_lines = λ ls s. ok (s ++ ls);
  file_ids = λ iri s. ok (files_of iri s);
  some_quads = λ n s. ok (take n s);
  remove_quads = λ qs s. ok (drop_lines qs s);
  size = length;
  remove_law =
      λ l q s t h. ap (member q) (sym (ok-eq (drop_line l s) t h)) ∙ member-drop_line q l s;
  load_law = λ ls q s t h. ap (member q) (sym (ok-eq (s ++ ls) t h)) ∙ member-append q s ls;
  file_ids_law = λ term file s files e h m.
      ap (member file) (sym (ok-eq (files_of (unbracketed term) s) files h))
      ∙ files_of-edge term file s e m;
  none_law = λ n s q h. nothing_left n s q (ok-eq (take (suc n) s) [] h);
  shrink_law = λ n q qs s t h k.
      shrinks n q qs s t (ok-eq (take n s) (q ∷ qs) h) (ok-eq (drop_lines (q ∷ qs) s) t k);
}

-- Batches of two over three quads.
clear_graph_in_batches-IsCleared_example :
    IsCleared memory (clear_graph_in_batches memory (codes "a" ∷ codes "b" ∷ codes "c" ∷ []) 2)
clear_graph_in_batches-IsCleared_example =
    clear_graph_in_batches-IsCleared memory (codes "a" ∷ codes "b" ∷ codes "c" ∷ []) 2
