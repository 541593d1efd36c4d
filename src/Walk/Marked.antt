-- ===== src/Walk/Marked.antt =====
-- What `mark_live` does: the candidates that one sidecar states join the live ones.
use git_lex.Base.{
  ℕ, ◌≡◌, ◌⊎◌, refl, ap, sym, ◌∙◌, inl, inr, Bool, true, false, ◌||◌, List, [], ◌∷◌, length, ◌==◌,
  ==_iff, Bool-cases,
}
use git_lex.Text.{Text, same, same_refl}
use git_lex.Sets.{member, insert_new, member-insert_new, member-same}
use git_lex.Sets.Counting.{Within, Nodup, insert_new-Nodup}
use git_lex.Walk.Guard.{mark_live}

pub record Marked (total : ℕ) (retracts cands found live : List Text) (out : List Text × Bool)
    : Type 0 where
  pub kept : Within live out.0
  pub nodup : Nodup out.0
  pub within : Within out.0 retracts
  pub sound : (z : Text) → member z out.0 ≡ true → (member z live ≡ true) ⊎ (member z found ≡ true)
  pub stop : out.1 ≡ true → length out.0 ≡ total
  pub marks :
      out.1 ≡ false
      → (z : Text) → member z cands ≡ true
      → member z found ≡ true
      → member z out.0 ≡ true

insert-kept : (x : Text) (s : List Text) → Within s (insert_new x s)
insert-kept x s z m = member-insert_new z x s ∙ ap (λ b. b || same z x) m

or_right : (a b : Bool) → b ≡ true → (a || b) ≡ true
or_right true b h = refl
or_right false b h = h

or_cases : (a b : Bool) → (a || b) ≡ true → (a ≡ true) ⊎ (b ≡ true)
or_cases true b h = inl refl
or_cases false b h = inr h

insert-here : (x : Text) (s : List Text) → member x (insert_new x s) ≡ true
insert-here x s = member-insert_new x x s ∙ or_right (member x s) (same x x) (same_refl x)

insert-Within :
    (x : Text) (s ys : List Text) → member x ys ≡ true → Within s ys → Within (insert_new x s) ys
insert-Within x s ys here w z m =
    elim (or_cases (member z s) (same z x) (sym (member-insert_new z x s) ∙ m)) [
      | inl old ↦ w z old
      | inr new ↦ member-same z x ys new ∙ here
    ]

added_sound :
    (cand : Text) (found live : List Text)
    → member cand found ≡ true
    → (z : Text) → member z (insert_new cand live) ≡ true
    → (member z live ≡ true) ⊎ (member z found ≡ true)
added_sound cand found live e z m =
    elim (or_cases (member z live) (same z cand) (sym (member-insert_new z cand live) ∙ m)) [
      | inl old ↦ inl old
      | inr new ↦ inr (member-same z cand found new ∙ e)
    ]

pub mark_live-Marked :
    (total : ℕ) (retracts cands found live : List Text)
    → Nodup live
    → Within live retracts
    → Within cands retracts
    → Marked total retracts cands found live (mark_live total cands found live)
mark_live-Marked total retracts [] found live d w c = record {
  kept = λ z m. m;
  nodup = d;
  within = w;
  sound = λ z m. inl m;
  stop = λ e. cc;
  marks = λ _ z m f. cc;
}
mark_live-Marked total retracts (cand ∷ cands) found live d w c =
    let more = insert_new cand live in
    let here = c cand (ap (λ b. b || member cand cands) (same_refl cand)) in
    let later : Within cands retracts = λ z m. c z (or_right (same z cand) (member z cands) m) in
    elim (Bool-cases (member cand found)) [
      | inr e ↦
          let ih = mark_live-Marked total retracts cands found live d w later in
          rw e record {
            kept = ih.kept;
            nodup = ih.nodup;
            within = ih.within;
            sound = ih.sound;
            stop = ih.stop;
            marks = λ g z m f. elim (or_cases (same z cand) (member z cands) m) [
              | inl k ↦ let absurd_eq : true ≡ false = sym f ∙ member-same z cand found k ∙ e in cc
              | inr k ↦ ih.marks g z k f
            ];
          }
      | inl e ↦ elim (Bool-cases (length more == total)) [
        | inl full ↦
            rw (e, full)
              record {
                kept = insert-kept cand live;
                nodup = insert_new-Nodup cand live d;
                within = insert-Within cand live retracts here w;
                sound = λ z m. added_sound cand found live e z m;
                stop = λ _. (==_iff (length more) total).0 full;
                marks = λ g. cc;
              }
        | inr room ↦
            let ih =
              mark_live-Marked total retracts cands found more (insert_new-Nodup cand live d)
                (insert-Within cand live retracts here w) later in
            rw (e, room)
              record {
                kept = λ z m. ih.kept z (insert-kept cand live z m);
                nodup = ih.nodup;
                within = ih.within;
                sound = λ z m. elim (ih.sound z m) [
                  | inl k ↦ added_sound cand found live e z k
                  | inr k ↦ inr k
                ];
                stop = ih.stop;
                marks = λ g z m f. elim (or_cases (same z cand) (member z cands) m) [
                  | inl k ↦ ih.kept z (member-same z cand more k ∙ insert-here cand live)
                  | inr k ↦ ih.marks g z k f
                ];
              }
      ]
    ]
