-- ===== src/Client/Menu.antt =====
-- client.c: RunClient, its two menus and the loops over what is typed or read from a file.
use threaded_network_adder.Base.{
  ℕ, suc, Bool, true, false, Option, none, some, List, [], ◌∷◌, ℤ, pos, ◌==ℤ◌, if◌then◌else◌,
}
use threaded_network_adder.Net.{SockAddr}
use threaded_network_adder.Client.Search.{Probe}
use threaded_network_adder.Client.Session.{
  Network, Client, Submitted, Verdict, shown, Sending, submit, continue, send_file,
}

-- What scanf("%d") and getchar tell apart in the input: an int, other text, the end of a line.
pub data Token : Type 0 where
  number : ℤ → Token
  word newline : Token

pub data Scan : Type 0 where
  value : ℤ → List Token → Scan
  no_value : List Token → Scan  -- the return value is not 1

-- scanf("%d", ...): text that is no number stays in the input.
unfoldable pub scan_int : List Token → Scan
scan_int [] = no_value []
scan_int (newline ∷ ts) = scan_int ts
scan_int (number n ∷ ts) = value n ts
scan_int (word ∷ ts) = no_value (word ∷ ts)

-- while ((c = getchar()) != '\n' && c != EOF);
unfoldable pub skip_line : List Token → List Token
skip_line [] = []
skip_line (newline ∷ ts) = ts
skip_line (number n ∷ ts) = skip_line ts
skip_line (word ∷ ts) = skip_line ts

abbrev with_token : Token → List Token × List Token → List Token × List Token
with_token t (line, rest) = (t ∷ line, rest)

-- A line without its end, and what follows it.
unfoldable pub split_line : List Token → List Token × List Token
split_line [] = ([], [])
split_line (newline ∷ ts) = ([], ts)
split_line (number n ∷ ts) = with_token (number n) (split_line ts)
split_line (word ∷ ts) = with_token word (split_line ts)

-- fgets of a line that fits its buffer.
unfoldable pub read_line : List Token → Option (List Token × List Token)
read_line [] = none
read_line (t ∷ ts) = some (split_line (t ∷ ts))

-- What fscanf reads of a file until it does not return 1.
unfoldable pub file_values : List Token → List ℤ
file_values [] = []
file_values (newline ∷ ts) = file_values ts
file_values (number n ∷ ts) = n ∷ file_values ts
file_values (word ∷ ts) = []

-- A loop over values, with the input after it; `none` where it goes round at the end of the input
-- for ever.
pub record Typed : Type 0 where
  pub sending : Sending
  pub rest : Option (List Token)

abbrev pub next_typed : Verdict → Submitted → List Token → Typed → Typed
next_typed (shown sum) u ts t = record { sending = continue (shown sum) u t.sending; rest = t.rest }
next_typed v u ts t = record { sending = continue v u t.sending; rest = some ts }

abbrev pub no_more : Client → Option (List Token) → Typed
no_more c rest = record { sending = record { client = c; shown = []; sent = [] }; rest = rest }

-- "Enter numbers to add (0 to exit)". `skipping`: after text that is no number, the rest of its
-- line is passed over.
unfoldable pub typed : (ℕ → Network) → Bool → ℕ → Client → List Token → Typed
typed nets skipping k c [] = no_more c none
typed nets skipping k c (newline ∷ ts) = typed nets false k c ts
typed nets skipping k c (word ∷ ts) = typed nets true k c ts
typed nets true k c (number n ∷ ts) = typed nets true k c ts
typed nets false k c (number n ∷ ts) =
    let u = submit (nets k) c n in
    let t = typed nets false (suc k) u.client ts in
    if n ==ℤ pos 0 then no_more c (some ts) else next_typed u.verdict u ts t

-- What the network, inet_pton and fopen do.
pub record World : Type 0 where
  pub parse_ip : List Token → Option ℕ
  pub open_file : List Token → Option (List Token)
  pub search_ready : ℕ → Bool
  pub search_probe : ℕ → ℕ → Probe
  pub nets : ℕ → ℕ → Network

-- A round of the first menu: RunClient returns with its socket open, the menu is shown again, the
-- user leaves, or a server is looked for.
pub data First : Type 0 where
  left_open leaves : First
  asks_again : List Token → First
  connects : SockAddr → List Token → First

abbrev with_ip : SockAddr → List Token → Option ℕ → First
with_ip addr rest none = asks_again rest
with_ip addr rest (some ip) = connects (record addr { s_addr = ip }) rest

abbrev typed_ip : World → SockAddr → List Token → Option (List Token × List Token) → First
typed_ip w addr ts none = connects addr ts
typed_ip w addr ts (some (line, rest)) = with_ip addr rest (w.parse_ip line)

unfoldable pub first_option : World → SockAddr → ℤ → List Token → First
first_option w addr option ts =
    if option ==ℤ pos 1
    then connects (record addr { s_addr = 0xffff_ffff }) ts
    else if option ==ℤ pos 2
    then typed_ip w addr ts (read_line ts)
    else if option ==ℤ pos 3
    then leaves
    else asks_again ts

abbrev first_scan : World → SockAddr → Scan → First
first_scan w addr (no_value ts) = left_open
first_scan w addr (value option ts) = first_option w addr option (skip_line ts)

unfoldable pub first_menu : World → SockAddr → List Token → First
first_menu w addr ts = first_scan w addr (scan_int ts)

-- A round of the second menu.
pub data Second : Type 0 where
  leaves_too : Second
  goes_round : List Token → Second
  sends : Sending → Option (List Token) → Second

abbrev opened_file : (ℕ → Network) → Client → List Token → Option (List Token) → Second
opened_file nets c rest none = goes_round rest
opened_file nets c rest (some ts) = sends (send_file nets 0 c (file_values ts)) (some rest)

abbrev named_file :
    World → (ℕ → Network) → Client → List Token → Option (List Token × List Token) → Second
named_file w nets c ts none = goes_round ts
named_file w nets c ts (some (line, rest)) = opened_file nets c rest (w.open_file line)

abbrev typed_values : Typed → Second
typed_values t = sends t.sending t.rest

unfoldable pub second_option : World → (ℕ → Network) → Client → ℤ → List Token → Second
second_option w nets c option ts =
    if option ==ℤ pos 1
    then typed_values (typed nets false 0 c ts)
    else if option ==ℤ pos 2
    then named_file w nets c ts (read_line ts)
    else if option ==ℤ pos 3
    then leaves_too
    else goes_round ts

-- Text that is no number is not passed over before the next round.
abbrev second_scan : World → (ℕ → Network) → Client → Scan → Second
second_scan w nets c (no_value ts) = goes_round ts
second_scan w nets c (value option ts) = second_option w nets c option (skip_line ts)

unfoldable pub second_menu : World → (ℕ → Network) → Client → List Token → Second
second_menu w nets c ts = second_scan w nets c (scan_int ts)
