-- ===== src/Scp/Receive/Steps.antt =====
-- Rounds of the loop in a row, and what one round does with each kind of line.
use wish.Base.{
  ℕ, zero, suc, ◌<◌, Bytes, [], ◌∷◌, ◌++◌, false, length, Lacks, ◌≡◌, refl, arith, ◌∙◌, subst, ap,
  ap₂, sym, replicate,
}
use wish.Scp.Entry.{null_byte}
use wish.Scp.Stream.{Stream, line, read_line_from, newline}
use wish.Scp.Header.{classify}
use wish.Scp.Receive.{
  CopyFromClientHandler, Conn, Locals, go_on, reply, handle_line, after_line, step, receive,
}
use wish.Scp.Receive.Total.{step-shorter}

module _ {S : Type 0} (h : CopyFromClientHandler S) (l' : Locals) (c' : Conn S) where
  -- The loop goes from `l` and `c` to `l'` and `c'`.
  pub data Steps : Locals → Conn S → Type 0 where
    here : {l : Locals} {c : Conn S} → l ≡ l' → c ≡ c' → Steps l c
    next : {l m : Locals} {c d : Conn S} → step h l c ≡ go_on m d → Steps m d → Steps l c

module _ {S : Type 0} (h : CopyFromClientHandler S) where
  pub Steps-trans :
      {m n : Locals} {d e : Conn S} {l : Locals} {c : Conn S}
      → Steps h m d l c
      → Steps h n e m d
      → Steps h n e l c
  Steps-trans {n} {d} {e} {l} (here p q) k =
      subst (λ x. Steps h n e l x) (sym q) (subst (λ x. Steps h n e x d) (sym p) k)
  Steps-trans (next p r) k = next p (Steps-trans r k)

  -- Enough fuel for the beginning is enough for what is left.
  pub receive-Steps :
      {m : Locals} {d : Conn S} {l : Locals} {c : Conn S}
      → Steps h m d l c
      → (fuel : ℕ) → length c.stream.rest < fuel
      → (rest : ℕ) × (length d.stream.rest < rest) × (receive h fuel l c ≡ receive h rest m d)
  unfolding receive
  receive-Steps {d} (here p q) fuel k =
      (fuel, subst (λ (x : Conn S). length x.stream.rest < fuel) q k, ap₂ (receive h fuel) p q)
  receive-Steps (next p r) zero k = elim k [ ]
  receive-Steps {m} {d} {l} {c} (next {m = x} {d = y} p r) (suc fuel) k =
      let (rest, enough, e) = receive-Steps r fuel (omega (arith, step-shorter h l x c y p)) in
      (rest, enough, rw (p, receive) e)

read_line_from-append :
    (text t : Bytes) (s : Stream)
    → Lacks newline text
    → read_line_from (text ++ newline ∷ t) s ≡ line text (record s { rest = t })
unfolding read_line_from
read_line_from-append [] t s h = refl
read_line_from-append (c ∷ text) t s (n, h) = ground (arith, read_line_from-append text t s h)

after_reply : (n : ℕ) → replicate n 0 ++ null_byte ≡ replicate (suc n) 0
after_reply zero = refl
after_reply (suc n) = ap (λ t. 0 ∷ t) (after_reply n)

module _ {S : Type 0} where
  -- Where the connection stands: what the client still has to say, the number of zero bytes that it
  -- has been sent, and the handler's state.
  pub record At (rest : Bytes) (n : ℕ) (s : S) (c : Conn S) : Type 0 where
    pub unread : c.stream.rest ≡ rest
    pub sound : c.stream.broken ≡ false
    pub replied : c.replies ≡ replicate n 0
    pub stored : c.state ≡ s

  pub At-reply :
      {rest : Bytes} {n : ℕ} {s : S} {c : Conn S} → At rest n s c → At rest (suc n) s (reply c)
  At-reply {n} a = record {
    unread = a.unread;
    sound = a.sound;
    replied = ap (λ t. t ++ null_byte) a.replied ∙ after_reply n;
    stored = a.stored;
  }

  -- The connection behind its first line.
  abbrev pub behind : Bytes → Conn S → Conn S
  behind t c = record c { stream = record c.stream { rest = t } }

  pub behind-At : {b t : Bytes} {n : ℕ} {s : S} {c : Conn S} → At b n s c → At t n s (behind t c)
  behind-At a = record { unread = refl; sound = a.sound; replied = a.replied; stored = a.stored }

module _ {S : Type 0} (h : CopyFromClientHandler S) where
  -- One round reads a line and handles it.
  pub step_line :
      (text t : Bytes) (n : ℕ) (s : S) (l : Locals) (c : Conn S)
      → Lacks newline text
      → At (text ++ newline ∷ t) n s c
      → step h l c ≡ handle_line h text (classify text) l (behind t c)
  unfolding step after_line
  step_line text t n s l c k a =
      ap (after_line h l c)
        (ap (λ b. read_line_from b c.stream) a.unread ∙ read_line_from-append text t c.stream k)
