-- ===== src/Client/Typing.antt =====
-- What RunClient makes of its input: values that are typed, a file that is named, and input that is
-- no number where a menu asks for one.
use threaded_network_adder.Base.{
  ℕ, zero, suc, Bool, true, false, Option, none, some, List, [], ◌∷◌, ◌++◌, ℤ, pos, ◌==ℤ◌, ltb_ℤ,
  ◌≡◌, refl, ap, subst, ◌∙◌, if◌then◌else◌, if_cases, Bool-cases, inl, inr, arith, All, ◌≢◌,
}
use threaded_network_adder.Base
use threaded_network_adder.Client.Session.{
  Network, Client, Submitted, Verdict, shown, failed, no_primary, submit, continue, send_file,
  send_typed,
}
use threaded_network_adder.Client.Menu.{
  Token, number, word, newline, no_value, scan_int, skip_line, split_line, read_line, file_values,
  Typed, next_typed, typed, World, second_menu, second_option,
}
use threaded_network_adder.Client.Loops.{quiet, after_sending, second_menus}

-- The ints typed, but for those behind other text on their line.
unfoldable pub typed_ints : Bool → List Token → List ℤ
typed_ints skipping [] = []
typed_ints skipping (newline ∷ ts) = typed_ints false ts
typed_ints skipping (word ∷ ts) = typed_ints true ts
typed_ints true (number n ∷ ts) = typed_ints true ts
typed_ints false (number n ∷ ts) = n ∷ typed_ints false ts

next_typed-sending :
    (v : Verdict) (u : Submitted) (ts : List Token) (t : Typed)
    → (next_typed v u ts t).sending ≡ continue v u t.sending
unfolding continue
next_typed-sending (shown sum) u ts t = refl
next_typed-sending failed u ts t = refl
next_typed-sending no_primary u ts t = refl

-- The loop over what is typed sends as the loop over the list of the ints typed.
pub typed-send_typed :
    (nets : ℕ → Network) (skipping : Bool) (k : ℕ) (c : Client) (ts : List Token)
    → (typed nets skipping k c ts).sending ≡ send_typed nets k c (typed_ints skipping ts)
unfolding typed send_typed typed_ints
typed-send_typed nets skipping k c [] = refl
typed-send_typed nets skipping k c (newline ∷ ts) = typed-send_typed nets false k c ts
typed-send_typed nets skipping k c (word ∷ ts) = typed-send_typed nets true k c ts
typed-send_typed nets true k c (number n ∷ ts) = typed-send_typed nets true k c ts
typed-send_typed nets false k c (number n ∷ ts) = elim (Bool-cases (n ==ℤ pos 0)) [
  | inl e ↦ rw e refl
  | inr e ↦
      let u = submit (nets k) c n in
      rw e (
        next_typed-sending u.verdict u ts (typed nets false (suc k) u.client ts)
        ∙ ap (continue u.verdict u) (typed-send_typed nets false (suc k) u.client ts))
]

scan_int-again :
    (ts : List Token) {rest : List Token}
    → scan_int ts ≡ no_value rest
    → scan_int rest ≡ no_value rest
unfolding scan_int
scan_int-again [] {rest} e =
    let same : [] ≡ rest = cc in subst (λ r. scan_int r ≡ no_value r) same refl
scan_int-again (newline ∷ ts) e = scan_int-again ts e
scan_int-again (number n ∷ ts) e = absurd (ground arith)
scan_int-again (word ∷ ts) {rest} e =
    let same : word ∷ ts ≡ rest = cc in subst (λ r. scan_int r ≡ no_value r) same refl

-- Where the second menu asks for an option and the next input is no number, or there is none, the
-- menu is shown again and again, however long one waits.
pub second_menus-no_value :
    (w : World) (nets : ℕ → ℕ → Network) (rounds : ℕ) (c : Client) (ts : List Token)
    {rest : List Token}
    → scan_int ts ≡ no_value rest
    → second_menus w nets rounds c ts ≡ none
unfolding second_menus second_menu
second_menus-no_value w nets zero c ts e = refl
second_menus-no_value w nets (suc rounds) c ts e =
    rw (e, second_menus) (second_menus-no_value w nets rounds c _ (scan_int-again ts e))

abbrev pub IsText : Token → Type 0
IsText (number n) = Unit
IsText word = Unit
IsText newline = ⊥

split_line-append :
    (name rest : List Token) → All IsText name → split_line (name ++ newline ∷ rest) ≡ (name, rest)
unfolding split_line
split_line-append [] rest h = refl
split_line-append (number n ∷ name) rest h = rw (split_line-append name rest h.1)
split_line-append (word ∷ name) rest h = rw (split_line-append name rest h.1)
split_line-append (newline ∷ name) rest h = absurd h.0

read_line-append :
    (name rest : List Token)
    → All IsText name
    → read_line (name ++ newline ∷ rest) ≡ some (name, rest)
unfolding read_line
read_line-append [] rest h = ap some (split_line-append [] rest h)
read_line-append (t ∷ name) rest h = ap some (split_line-append (t ∷ name) rest h)

-- A user who names a file at the second menu and then leaves: the values of the file are sent, and
-- RunClient ends with its socket closed.
pub second_menus-file :
    (w : World) (nets : ℕ → ℕ → Network) (rounds : ℕ) (c : Client) (name rest : List Token)
    {contents : List Token}
    → All IsText name
    → w.open_file name ≡ some contents
    → second_menus w nets
        (suc (suc rounds))
        c
        (number (pos 2) ∷ newline ∷ name ++ newline ∷ number (pos 3) ∷ rest)
      ≡ (let s = send_file (nets (suc rounds)) 0 c (file_values contents) in
          some (after_sending s (quiet s.client true)))
unfolding second_menus second_menu scan_int skip_line second_option Base.◌==ℤ◌
second_menus-file w nets rounds c name rest h e =
    rw (read_line-append name (number (pos 3) ∷ rest) h, e, second_menus) refl
