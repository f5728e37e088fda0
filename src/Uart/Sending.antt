-- ===== src/Uart/Sending.antt =====
-- What send() puts on the line.
use bms_bridge.Base.{
  ℕ, zero, suc, ◌+◌, ◌≤◌, ◌≡◌, refl, ◌∙◌, ap, List, [], ◌∷◌, ◌++◌, Option, none, some, inl, inr,
  Bool, true, false, ltb, lt→ltb, ◌≢◌, Bool-cases, take, drop, length, take-append-drop,
  append_assoc, Bytes, All, length-drop, arith,
}
use bms_bridge.Uart.{Write, wrote, try_again, write_fails, send_loop, UartTransport, send}

-- What is written and what is left of it.
abbrev pub Splits : Bytes → Bytes → Option Bool → Type 0
Splits payload sent result =
    (rest : Bytes) × (sent ++ rest ≡ payload) × (result ≡ some true → rest ≡ [])

Splits-none :
    (payload : Bytes) (result : Option Bool)
    → (result ≡ some true → payload ≡ [])
    → Splits payload [] result
Splits-none payload result h = (payload, refl, h)

Splits-take :
    (n : ℕ) (payload later : Bytes) (result : Option Bool)
    → Splits (drop n payload) later result
    → Splits payload (take n payload ++ later) result
Splits-take n payload later result (rest, e, h) = (
  rest,
  append_assoc (take n payload) later rest
      ∙ ap (◌++◌ (take n payload)) e
      ∙ take-append-drop n payload,
  h,
)

send_loop-Splits :
    (ws : List Write) (payload : Bytes)
    → Splits payload (send_loop ws payload).0 (send_loop ws payload).1
unfolding send_loop
send_loop-Splits ws [] = ([], refl, (λ e. refl))
send_loop-Splits [] (b ∷ bs) = Splits-none (b ∷ bs) none (λ e. cc)
send_loop-Splits (wrote n ∷ ws) (b ∷ bs) = elim (Bool-cases (ltb 0 n)) [
  | inl e ↦ rw (e) (Splits-take n (b ∷ bs) _ _ (send_loop-Splits ws (drop n (b ∷ bs))))
  | inr e ↦ rw (e) (Splits-none (b ∷ bs) (some false) (λ e. cc))
]
send_loop-Splits (try_again ∷ ws) (b ∷ bs) = send_loop-Splits ws (b ∷ bs)
send_loop-Splits (write_fails ∷ ws) (b ∷ bs) = Splits-none (b ∷ bs) (some false) (λ e. cc)

-- The writes that make progress, where none of the outcomes is an error.
abbrev pub Progress : Write → Type 0
Progress (wrote n) = 1 ≤ n
Progress try_again = Unit
Progress write_fails = ⊥

abbrev pub progress : List Write → ℕ
progress [] = 0
progress (wrote n ∷ ws) = n + progress ws
progress (try_again ∷ ws) = progress ws
progress (write_fails ∷ ws) = progress ws

send_loop-returns :
    (ws : List Write) (payload : Bytes)
    → All Progress ws
    → length payload ≤ progress ws
    → (send_loop ws payload).1 ≡ some true
unfolding send_loop
send_loop-returns ws [] h l = refl
send_loop-returns [] (b ∷ bs) h l = absurd (omega arith)
send_loop-returns (wrote zero ∷ ws) (b ∷ bs) h l = absurd (omega (arith, h.0))
send_loop-returns (wrote (suc n) ∷ ws) (b ∷ bs) h l =
    rw (lt→ltb 0 (suc n) (omega arith))
      (send_loop-returns ws (drop n bs) h.1 (omega (arith, length-drop n bs)))
send_loop-returns (try_again ∷ ws) (b ∷ bs) h l = send_loop-returns ws (b ∷ bs) h.1 l
send_loop-returns (write_fails ∷ ws) (b ∷ bs) h l = absurd h.0

-- What is written is the payload up to some point, in order, and all of it when send() returns
-- true. On a closed port nothing is written and the result is false. On an open one, when write()
-- never fails nor returns 0, and makes in all as much progress as the payload is long, send()
-- returns true.
pub send-Splits :
    (ws : List Write) (payload : Bytes) (u : UartTransport)
    → let (sent, result) = send ws payload u in
      Splits payload sent result
      × (u.fd ≡ none → (sent ≡ []) × (result ≡ some false))
      × (u.fd ≢ none → All Progress ws → length payload ≤ progress ws → result ≡ some true)
unfolding send
send-Splits ws payload u = go u.fd
  where
    go :
        (fd : Option ℕ)
        → let (sent, result) = send ws payload (record u { fd = fd }) in
          Splits payload sent result
          × (fd ≡ none → (sent ≡ []) × (result ≡ some false))
          × (fd ≢ none → All Progress ws → length payload ≤ progress ws → result ≡ some true)
    go none = (
      Splits-none payload (some false) (λ e. cc),
      (λ e. (refl, refl)),
      (λ n h l. absurd (n refl)),
    )
    go (some fd) =
        (send_loop-Splits ws payload, (λ e. cc), (λ n h l. send_loop-returns ws payload h l))
