-- ===== src/Wire/Sends.antt =====
-- `send_all` and the calls built from it: they end, and what they leave on the wire is the whole
-- text exactly if they report success, and a proper part from its start otherwise.
use amigactl.Prelude.{
  ℕ, zero, suc, ◌+◌, ◌<◌, Bool, true, false, List, [], ◌∷◌, ◌++◌, Option, some, ◌≡◌, refl, ◌∙◌,
  arith, length, length-append, length-drop, take, drop, take-add, take-append-drop, take-append-le,
  take-append-add, append_assoc, append-nil,
}
use amigactl.Wire.{Network, Socket, send, send_loop, send_all, ◌then_send◌}

-- What a call that sends `text` over `s` has done.
pub record Sent (s : Socket) (text : List ℕ) (result : Option (Bool × Socket)) : Type 0 where
  pub ok : Bool
  pub after : Socket
  pub returns : result ≡ some (ok, after)
  pub count : ℕ
  pub wire : after.sent ≡ s.sent ++ take count text
  pub whole : ok ≡ true → take count text ≡ text
  pub cut : ok ≡ false → count < length text

module _ (net : Network) where
  -- After a `send` that took `suc n` bytes, the rest of the loop completes the text.
  send_step :
      (fuel n : ℕ) (s : Socket) (b : ℕ) (buf : List ℕ)
      → net.accepts s.calls (suc (length buf)) ≡ suc n
      → Sent
          (send net s (b ∷ buf)).1
          (drop n buf)
          (send_loop net fuel (send net s (b ∷ buf)).1 (drop n buf))
      → Sent s (b ∷ buf) (send_loop net (suc fuel) s (b ∷ buf))
  unfolding send_loop send
  send_step fuel n s b buf e rest = record {
    ok = rest.ok;
    after = rest.after;
    returns = rw (e, send_loop) rest.returns;
    count = suc n + rest.count;
    wire =
        rest.wire
        ∙ rw (take-add (suc n) rest.count (b ∷ buf), e)
            (append_assoc s.sent (take (suc n) (b ∷ buf)) (take rest.count (drop n buf)));
    whole = λ t.
        rw (take-add (suc n) rest.count (b ∷ buf), rest.whole t)
          (take-append-drop (suc n) (b ∷ buf));
    cut = λ c. omega (arith, rest.cut c, length-drop n buf);
  }

  send_loop-Sent :
      (fuel : ℕ) (s : Socket) (buf : List ℕ)
      → length buf < fuel
      → Sent s buf (send_loop net fuel s buf)
  unfolding send_loop send
  send_loop-Sent zero s buf h = absurd (omega arith)
  send_loop-Sent (suc fuel) s [] h = record {
    ok = true;
    after = s;
    returns = refl;
    count = 0;
    wire = rw append-nil;
    whole = λ e. refl;
    cut = λ e. cc;
  }
  send_loop-Sent (suc fuel) s (b ∷ buf) h =
      by_count (net.accepts s.calls (suc (length buf))) refl (λ n.
        send_loop-Sent fuel (send net s (b ∷ buf)).1 (drop n buf)
          (omega (arith, length-drop n buf)))
    where
      by_count :
          (n : ℕ)
          → net.accepts s.calls (suc (length buf)) ≡ n
          → ((k : ℕ)
              → Sent
                  (send net s (b ∷ buf)).1
                  (drop k buf)
                  (send_loop net fuel (send net s (b ∷ buf)).1 (drop k buf)))
          → Sent s (b ∷ buf) (send_loop net (suc fuel) s (b ∷ buf))
      by_count zero e rest = record {
        ok = false;
        after = record { calls = s.calls + 1; sent = s.sent ++ [] };
        returns = rw (e, send_loop) (rw e);
        count = 0;
        wire = refl;
        whole = λ t. cc;
        cut = λ t. omega arith;
      }
      by_count (suc n) e rest = send_step fuel n s b buf e (rest n)

  pub send_all-Sent : (buf : List ℕ) (s : Socket) → Sent s buf (send_all net buf s)
  unfolding send_all
  send_all-Sent buf s = send_loop-Sent (suc (length buf)) s buf (omega arith)

  pub then_send-Sent :
      (m k : Socket → Option (Bool × Socket)) (text more : List ℕ) (s : Socket)
      → Sent s text (m s)
      → ((s' : Socket) → Sent s' more (k s'))
      → Sent s (text ++ more) (◌then_send◌ net m k s)
  unfolding ◌then_send◌
  then_send-Sent m k text more s first second = by_result first.ok refl
    where
      by_result : (b : Bool) → first.ok ≡ b → Sent s (text ++ more) (◌then_send◌ net m k s)
      by_result true e =
          let next = second first.after in
          record {
            ok = next.ok;
            after = next.after;
            returns = rw (first.returns, ◌then_send◌) (rw e next.returns);
            count = length text + next.count;
            wire = rw (
              take-append-add next.count text more,
              next.wire,
              first.wire,
              first.whole e,
              append_assoc,
            );
            whole = λ t. rw (take-append-add next.count text more, next.whole t);
            cut = λ t. omega (arith, next.cut t, length-append text more);
          }
      by_result false e = record {
        ok = false;
        after = first.after;
        returns = rw (first.returns, ◌then_send◌) (rw e);
        count = first.count;
        wire = rw (take-append-le first.count text more (omega (arith, first.cut e)), first.wire);
        whole = λ t. cc;
        cut = λ t. omega (arith, first.cut e, length-append text more);
      }
