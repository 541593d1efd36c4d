-- ===== src/Sync/Loader/Chunks.antt =====
-- `MarkerLastLoader::push_str` over a text in pieces.
use git_lex.Base.{
  ℕ, ◌≡◌, refl, ap, sym, ◌∙◌, inl, inr, true, false, [], ◌∷◌, ◌++◌, append-nil, append_assoc,
  Result, ◌==◌, Bool-cases,
}
use git_lex.Text.{Text}
use git_lex.Sync.Loader.{Loader, line, take_line, push_loop, push_str}

module _ {S E : Type 0} (load_from_reader : Text → S → Result E S) where
  abbrev feed : Text → Text → Loader S E → Loader S E
  feed = push_loop load_from_reader

  take_line-carry :
      (text carry : Text) (l : Loader S E)
      → take_line load_from_reader text (record l { carry = carry })
        ≡ line load_from_reader (carry ++ text) (record l { carry = [] })
  take_line-carry text [] l = refl
  take_line-carry text (c ∷ carry) l = refl

  take_line-append :
      (a b : Text) (l : Loader S E)
      → take_line load_from_reader (a ++ b) l
        ≡ take_line load_from_reader b (record l { carry = l.carry ++ a })
  take_line-append a b l =
      take_line-carry (a ++ b) l.carry l
      ∙ ap (λ t. line load_from_reader t (record l { carry = [] })) (sym (append_assoc l.carry a b))
      ∙ sym (take_line-carry b (l.carry ++ a) l)

  push_loop-end :
      (head : Text) (l : Loader S E) → feed head [] l ≡ record l { carry = l.carry ++ head }
  unfolding push_loop
  push_loop-end head l = refl

  push_loop-newline :
      (head rest : Text) (c : ℕ) (l : Loader S E)
      → (c == b'\n') ≡ true
      → feed head (c ∷ rest) l ≡ feed [] rest (take_line load_from_reader (head ++ c ∷ []) l)
  unfolding push_loop
  push_loop-newline head rest c l e = rw (e, push_loop) refl

  push_loop-other :
      (head rest : Text) (c : ℕ) (l : Loader S E)
      → (c == b'\n') ≡ false
      → feed head (c ∷ rest) l ≡ feed (head ++ c ∷ []) rest l
  unfolding push_loop
  push_loop-other head rest c l e = rw (e, push_loop) refl

  -- What a walk has passed may as well have been carried.
  push_loop-carry :
      (a h b : Text) (l : Loader S E)
      → feed (a ++ h) b l ≡ feed h b (record l { carry = l.carry ++ a })
  push_loop-carry a h [] l =
      push_loop-end (a ++ h) l
      ∙ ap (λ t. record l { carry = t }) (sym (append_assoc l.carry a h))
      ∙ sym (push_loop-end h (record l { carry = l.carry ++ a }))
  push_loop-carry a h (c ∷ b) l =
      let l' : Loader S E = record l { carry = l.carry ++ a } in
      elim (Bool-cases (c == b'\n')) [
        | inl e ↦
            push_loop-newline (a ++ h) b c l e
            ∙ ap (λ t. feed [] b (take_line load_from_reader t l)) (append_assoc a h (c ∷ []))
            ∙ ap (feed [] b) (take_line-append a (h ++ c ∷ []) l)
            ∙ sym (push_loop-newline h b c l' e)
        | inr e ↦
            push_loop-other (a ++ h) b c l e
            ∙ ap (λ t. feed t b l) (append_assoc a h (c ∷ []))
            ∙ push_loop-carry a (h ++ c ∷ []) b l
            ∙ sym (push_loop-other h b c l' e)
      ]

  push_loop-append :
      (head a b : Text) (l : Loader S E) → feed head (a ++ b) l ≡ feed [] b (feed head a l)
  push_loop-append head [] b l =
      ap (λ t. feed t b l) (sym (append-nil head))
      ∙ push_loop-carry head [] b l
      ∙ ap (feed [] b) (sym (push_loop-end head l))
  push_loop-append head (c ∷ a) b l = elim (Bool-cases (c == b'\n')) [
    | inl e ↦
        push_loop-newline head (a ++ b) c l e
        ∙ push_loop-append [] a b (take_line load_from_reader (head ++ c ∷ []) l)
        ∙ ap (feed [] b) (sym (push_loop-newline head a c l e))
    | inr e ↦
        push_loop-other head (a ++ b) c l e
        ∙ push_loop-append (head ++ c ∷ []) a b l
        ∙ ap (feed [] b) (sym (push_loop-other head a c l e))
  ]

  -- Whatever the store answers, handing the loader a text in two pieces, cut anywhere, leaves it as
  -- handing it the whole text does.
  pub push_str-append :
      (a b : Text) (l : Loader S E)
      → push_str load_from_reader (a ++ b) l
        ≡ push_str load_from_reader b (push_str load_from_reader a l)
  unfolding push_str
  push_str-append a b l = push_loop-append [] a b l
