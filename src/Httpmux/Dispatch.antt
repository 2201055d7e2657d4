-- ===== src/Httpmux/Dispatch.antt =====
-- httpmux/httpmux.go: what `DispatchConnection` makes of a connection.
use smart_web.Base.{
  ℕ, zero, suc, ◌≤◌, true, [], ◌∷◌, ◌++◌, ◌≡◌, ◌≢◌, ◌↔◌, ◌⊎◌, inl, inr, refl, sym, ap, ◌∙◌, Bytes,
  length, take, drop, All, arith, Bool-cases,
}
use smart_web.Httpmux.{
  ReadEnd, read_ok, timed_out, read_error, Incoming, Dispatched, refused, plain, tls, stream,
  is_text, is_http, burst_of, choose, dispatch, dispatch_connection,
}

-- A tab or a printable ASCII character.
pub IsText : ℕ → Type 0
IsText c = (c ≡ 9) ⊎ ((32 ≤ c) × (c ≤ 126))

is_text_iff : (c : ℕ) → (is_text c ≡ true) ↔ IsText c
unfolding is_text IsText
is_text_iff c = ground arith

pub is_http_iff : (buf : Bytes) → (is_http buf ≡ true) ↔ All IsText buf
unfolding is_http
is_http_iff [] = (λ _. tt, λ _. refl)
is_http_iff (c ∷ buf) = ground (arith, is_text_iff c, is_http_iff buf)

take-append-drop : (n : ℕ) (s : Bytes) → take n s ++ drop n s ≡ s
take-append-drop zero s = refl
take-append-drop (suc n) [] = refl
take-append-drop (suc n) (c ∷ s) = ap (λ x. c ∷ x) (take-append-drop n s)

length-take : (n : ℕ) (s : Bytes) → length (take n s) ≤ n
length-take zero s = omega arith
length-take (suc n) [] = omega arith
length-take (suc n) (c ∷ s) = omega (arith, length-take n s)

burst_of-le : (n : ℕ) → burst_of n ≤ 255
unfolding burst_of
burst_of-le n = ground arith

-- What has become of a connection.
pub Serves : Incoming → Dispatched → Type 0
Serves i (refused e) =
    ((i.sent ≡ []) × (e ≡ i.first_error)) ⊎ ((i.sent ≢ []) × (i.second_end ≡ read_error e))
Serves i (plain c) =
    (stream c ≡ i.sent) × (c.buffered ≢ []) × (length c.buffered ≤ 256) × All IsText c.buffered
Serves i (tls c) =
    (stream c ≡ i.sent) × (c.buffered ≢ []) × (length c.buffered ≤ 256) × ¬ All IsText c.buffered

kept :
    (i : Incoming) (e : ReadEnd) (c : ℕ) (front rest : Bytes)
    → i.sent ≡ c ∷ (front ++ rest)
    → length front ≤ 255
    → i.second_end ≡ e
    → Serves i (choose e (c ∷ front) rest)
unfolding choose Serves stream
kept i (read_error text) c front rest split short same = inr ((λ n. cc), same)
kept i read_ok c front rest split short same = elim (Bool-cases (is_http (c ∷ front))) [
  | inl text ↦ rw text (sym split, (λ n. cc), omega arith, (is_http_iff (c ∷ front)).0 text)
  | inr other ↦
      rw other (sym split, (λ n. cc), omega arith, (λ h. cc (other, (is_http_iff (c ∷ front)).1 h)))
]
kept i timed_out c front rest split short same = elim (Bool-cases (is_http (c ∷ front))) [
  | inl text ↦ rw text (sym split, (λ n. cc), omega arith, (is_http_iff (c ∷ front)).0 text)
  | inr other ↦
      rw other (sym split, (λ n. cc), omega arith, (λ h. cc (other, (is_http_iff (c ∷ front)).1 h)))
]

dispatch-Serves : (i : Incoming) (sent : Bytes) → i.sent ≡ sent → Serves i (dispatch i sent)
unfolding dispatch Serves
dispatch-Serves i [] none_sent = inl (none_sent, refl)
dispatch-Serves i (c ∷ rest) split =
    kept i i.second_end c (take (burst_of i.ready) rest) (drop (burst_of i.ready) rest)
      (split ∙ ap (λ x. c ∷ x) (sym (take-append-drop (burst_of i.ready) rest)))
      (omega (arith, length-take (burst_of i.ready) rest, burst_of-le i.ready)) refl

-- `DispatchConnection` refuses a connection only when its first read finds no byte, or when its second
-- ends with an error that is no timeout, and with that read's error. Of any other connection it loses
-- no byte; it looks at 1 to 256 bytes, and serves it in the clear if these are all tabs or printable
-- ASCII, and by TLS if they are not.
pub dispatch_connection-Serves : (i : Incoming) → Serves i (dispatch_connection i)
unfolding dispatch_connection
dispatch_connection-Serves i = dispatch-Serves i i.sent refl
