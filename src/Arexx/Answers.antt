-- ===== src/Arexx/Answers.antt =====
-- Whom a reply at the port reaches.
use amigactl.Prelude.{
  ℕ, zero, suc, true, false, ◌&&◌, List, [], ◌∷◌, Option, none, some, ◌≡◌, ◌≢◌, refl, ap, sym, ◌∙◌,
  arith, ◌==◌, get_elem?, modify, get_elem?-modify_self, get_elem?-modify_ne, Bool-cases,
  Option-cases, inl, inr,
}
use amigactl.Wire.Frames.{Frame}
use amigactl.Arexx.{
  Pending, Client, Bridge, first_slot, RexxReply, Output, is_waiting, settle, to_client, told,
  answered, answer, response, client_of, reply_in,
}
use amigactl.Arexx.Steps.{client_of-there}

-- The first active slot with this message, if there is one, belongs to no client that is connected
-- and waits.
abbrev pub NoAsker : RexxReply → Bridge → Type 0
NoAsker r b =
    (k i : ℕ) (s : Pending) (c : Client)
    → first_slot (λ s. s.active && (s.msg == r.message)) b.slots 0 ≡ some k
    → get_elem? b.slots k ≡ some s
    → s.client_idx ≡ some i
    → get_elem? b.clients i ≡ some c
    → is_waiting c ≡ false

-- Nobody waits for this message and nobody gets anything, or the one client that waits for it gets
-- the whole response, and waits no longer.
pub data Answer (r : RexxReply) (b : Bridge) (x : Bridge × Output) : Type 0 where
  nobody : NoAsker r b → x.0.clients ≡ b.clients → x.1 ≡ [] → Answer r b x
  asker :
      (k i : ℕ) (s : Pending) (c : Client)
      → get_elem? b.slots k ≡ some s
      → s.active ≡ true
      → s.msg ≡ r.message
      → s.client_idx ≡ some i
      → get_elem? b.clients i ≡ some c
      → is_waiting c ≡ true
      → x.1 ≡ to_client i (response r)
      → get_elem? x.0.clients i ≡ some (record c { arexx_pending = false })
      → ((j : ℕ) → j ≢ i → get_elem? x.0.clients j ≡ get_elem? b.clients j)
      → Answer r b x

modify_fixed :
    (cs : List Client) (i : ℕ) (f : Client → Client)
    → ((c : Client) → get_elem? cs i ≡ some c → f c ≡ c)
    → modify cs i f ≡ cs
modify_fixed [] i f h = refl
modify_fixed (c ∷ cs) zero f h = ap (λ d. d ∷ cs) (h c refl)
modify_fixed (c ∷ cs) (suc i) f h = ap (λ l. c ∷ l) (modify_fixed cs i f h)

settle-waiting : (c : Client) → is_waiting c ≡ true → settle c ≡ record c { arexx_pending = false }
unfolding settle is_waiting
settle-waiting c e = rw e refl

settle-other : (c : Client) → is_waiting c ≡ false → settle c ≡ c
unfolding settle is_waiting
settle-other c e = rw e refl

told-waiting :
    (cs : List Client) (i : ℕ) (frames : List Frame) {c : Client}
    → get_elem? cs i ≡ some c
    → is_waiting c ≡ true
    → told cs i frames ≡ to_client i frames
unfolding told
told-waiting cs i frames at e = rw (at, told) (rw e refl)

told-other :
    (cs : List Client) (i : ℕ) (frames : List Frame) {c : Client}
    → get_elem? cs i ≡ some c
    → is_waiting c ≡ false
    → told cs i frames ≡ []
unfolding told
told-other cs i frames at e = rw (at, told) (rw e refl)

told_absent :
    (cs : List Client) (i : ℕ) (frames : List Frame) → get_elem? cs i ≡ none → told cs i frames ≡ []
unfolding told
told_absent cs i frames at = rw (at, told) refl

module _ (r : RexxReply) (b : Bridge) (k : ℕ) (s : Pending) (there : get_elem? b.slots k ≡ some s)
    (test : (s.active && (s.msg == r.message)) ≡ true)
    (found : first_slot (λ s. s.active && (s.msg == r.message)) b.slots 0 ≡ some k) where
  -- What the slot says of every asker.
  no_asker :
      ((i : ℕ) (c : Client)
        → s.client_idx ≡ some i
        → get_elem? b.clients i ≡ some c
        → is_waiting c ≡ false)
      → NoAsker r b
  no_asker h k' i s' c e at own known =
      let k_same : k' ≡ k = cc in
      let s_same : s' ≡ s = cc in h i c (ap (λ z. z.client_idx) (sym s_same) ∙ own) known

  to_asker :
      (i : ℕ) (c : Client)
      → s.client_idx ≡ some i
      → get_elem? b.clients i ≡ some c
      → Answer r b (reply_in r b (some k))
  unfolding reply_in answered answer
  to_asker i c own at =
      let who : client_of b.slots k ≡ some i = client_of-there b.slots k there ∙ own in
      elim (Bool-cases (is_waiting c)) [
        | inl e ↦
            asker k i s c there (ground arith) (ground arith) own at e
              (rw who (told-waiting b.clients i (response r) at e))
              (rw who (
                get_elem?-modify_self b.clients i settle at
                ∙ ap (λ d. some d) (settle-waiting c e)))
              (λ j n. rw who (get_elem?-modify_ne b.clients i j settle n))
        | inr e ↦
            nobody
              (no_asker λ j d own' at'.
                let same_client : i ≡ j = cc in
                let same : c ≡ d = cc in ap (λ z. is_waiting z) (sym same) ∙ e)
              (rw who (
                modify_fixed b.clients i settle (λ d g.
                  let same : c ≡ d = cc in settle-other d (ap (λ z. is_waiting z) (sym same) ∙ e))))
              (rw who (told-other b.clients i (response r) at e))
      ]

  by_client : (q : Option ℕ) → s.client_idx ≡ q → Answer r b (reply_in r b (some k))
  unfolding reply_in answered answer
  by_client none own =
      let who : client_of b.slots k ≡ none = client_of-there b.slots k there ∙ own in
      nobody (no_asker λ j d own' at'. absurd cc) (rw who refl) (rw who refl)
  by_client (some i) own =
      let who : client_of b.slots k ≡ some i = client_of-there b.slots k there ∙ own in
      elim (Option-cases (get_elem? b.clients i)) [
        | inl e ↦
            nobody (no_asker λ j d own' at'. let same_client : i ≡ j = cc in absurd cc)
              (rw who (modify_fixed b.clients i settle (λ d g. absurd cc)))
              (rw who (told_absent b.clients i (response r) e))
        | inr (c, at) ↦ to_asker i c own at
      ]

  pub matched-Answer : Answer r b (reply_in r b (some k))
  matched-Answer = by_client s.client_idx refl
