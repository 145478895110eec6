-- ===== src/Ipc/Msg/Search.antt =====
-- Which message `find_msg` of os/src/ipc/msg.rs finds.
use os.Base.{
  ℕ, zero, suc, ◌+◌, ◌≤◌, ◌<◌, ◌≡◌, ◌≢◌, refl, ap, sym, ◌∙◌, Bool, true, false, ◌&&◌, not, Option,
  none, some, List, [], ◌∷◌, ◌++◌, arith, leb, ltb, ◌==◌, if_cases, length, length-append,
  append_assoc, append-nil,
}
use mathlib.Core.Option
use os.Base.Int.{ℤ, pos, negsuc}
use os.Ipc.Msg.{Msg, MsgQueue, MsgFlags, position, better, find_least, find_msg}

-- All types of the messages are above `t`; at least `t`; `n`; another than `n`.
abbrev pub AllAbove : List Msg → ℕ → Type 0
AllAbove [] t = Unit {0}
AllAbove (m ∷ ms) t = (t < m.mtype) × AllAbove ms t

abbrev pub AllFrom : List Msg → ℕ → Type 0
AllFrom [] t = Unit {0}
AllFrom (m ∷ ms) t = (t ≤ m.mtype) × AllFrom ms t

abbrev pub Typed : Bool → Msg → ℕ → Type 0
Typed false m n = m.mtype ≡ n
Typed true m n = m.mtype ≢ n

-- No message is of type `n`, or for `except` of another type.
abbrev pub NoneTyped : Bool → List Msg → ℕ → Type 0
NoneTyped except [] n = Unit {0}
NoneTyped except (m ∷ ms) n = Typed (not except) m n × NoneTyped except ms n

AllAbove-append : (xs ys : List Msg) (t : ℕ) → AllAbove xs t → AllAbove ys t → AllAbove (xs ++ ys) t
AllAbove-append [] ys t h k = k
AllAbove-append (x ∷ xs) ys t h k = (h.0, AllAbove-append xs ys t h.1 k)

AllFrom-append : (xs ys : List Msg) (t : ℕ) → AllFrom xs t → AllFrom ys t → AllFrom (xs ++ ys) t
AllFrom-append [] ys t h k = k
AllFrom-append (x ∷ xs) ys t h k = (h.0, AllFrom-append xs ys t h.1 k)

AllAbove-lower : (xs : List Msg) (t u : ℕ) → t ≤ u → AllAbove xs u → AllAbove xs t
AllAbove-lower [] t u h k = tt
AllAbove-lower (x ∷ xs) t u h k = (omega (arith, h, k.0), AllAbove-lower xs t u h k.1)

AllFrom-Above : (xs : List Msg) (t u : ℕ) → t < u → AllFrom xs u → AllAbove xs t
AllFrom-Above [] t u h k = tt
AllFrom-Above (x ∷ xs) t u h k = (omega (arith, h, k.0), AllFrom-Above xs t u h k.1)

-- The first message of the least type, which is at most `limit`.
record Least (ms : List Msg) (limit i t : ℕ) : Type 0 where
  before : List Msg
  msg : Msg
  after : List Msg
  whole : ms ≡ before ++ (msg ∷ after)
  at : i ≡ length before
  type : t ≡ msg.mtype
  low : t ≤ limit
  earlier : AllAbove before t
  later : AllFrom after t

abbrev IsLeast : List Msg → ℕ → Option (ℕ × ℕ) → Type 0
IsLeast ms limit none = AllAbove ms limit
IsLeast ms limit (some (i, t)) = Least ms limit i t

better-IsLeast :
    (seen : List Msg) (m : Msg) (limit : ℕ) (best : Option (ℕ × ℕ))
    → IsLeast seen limit best
    → IsLeast (seen ++ (m ∷ [])) limit (better limit (length seen) m best)
better-IsLeast seen m limit none h =
    if_cases (IsLeast (seen ++ (m ∷ [])) limit) (leb m.mtype limit)
      (λ e.
        let low : m.mtype ≤ limit = ground arith in
        record {
          before = seen;
          msg = m;
          after = [];
          whole = refl;
          at = refl;
          type = refl;
          low = low;
          earlier = AllAbove-lower seen m.mtype limit low h;
          later = tt;
        })
      (λ e. AllAbove-append seen (m ∷ []) limit h (ground arith, tt))
better-IsLeast seen m limit (some (i, t)) h =
    if_cases (IsLeast (seen ++ (m ∷ [])) limit) (leb m.mtype limit && ltb m.mtype t)
      (λ e.
        let less : m.mtype < t = ground arith in
        let all : AllAbove (h.before ++ (h.msg ∷ h.after)) m.mtype =
          AllAbove-append h.before (h.msg ∷ h.after) m.mtype
            (AllAbove-lower h.before m.mtype t (omega arith) h.earlier)
            (omega (arith, h.type), AllFrom-Above h.after m.mtype t less h.later) in
        record {
          before = seen;
          msg = m;
          after = [];
          whole = refl;
          at = refl;
          type = refl;
          low = ground arith;
          earlier = rw h.whole all;
          later = tt;
        })
      (λ e. record {
        before = h.before;
        msg = h.msg;
        after = h.after ++ (m ∷ []);
        whole = ap (λ l. l ++ (m ∷ [])) h.whole ∙ append_assoc h.before (h.msg ∷ h.after) (m ∷ []);
        at = h.at;
        type = h.type;
        low = h.low;
        earlier = h.earlier;
        later = AllFrom-append h.after (m ∷ []) t h.later (ground (arith, h.low), tt);
      })

find_least-IsLeast :
    (seen ms : List Msg) (limit : ℕ) (best : Option (ℕ × ℕ))
    → IsLeast seen limit best
    → IsLeast (seen ++ ms) limit (find_least ms limit (length seen) best)
unfolding find_least
find_least-IsLeast seen [] limit best h = rw (append-nil seen) h
find_least-IsLeast seen (m ∷ ms) limit best h =
    let next : length seen + 1 ≡ length (seen ++ (m ∷ [])) =
      omega (arith, length-append seen (m ∷ [])) in
    let whole : seen ++ (m ∷ ms) ≡ (seen ++ (m ∷ [])) ++ ms = sym (append_assoc seen (m ∷ []) ms) in
    rw (next, whole)
      (find_least-IsLeast (seen ++ (m ∷ [])) ms limit (better limit (length seen) m best)
        (better-IsLeast seen m limit best h))

-- The message that a receiver of type `msgtyp` is to get, between `before` and `after`: the first of
-- all, the first of the type asked for (or of another), or the first of the least type.
abbrev pub Chosen : ℤ → Bool → List Msg → Msg → List Msg → Type 0
Chosen (pos zero) except before m after = before ≡ []
Chosen (pos (suc n)) except before m after =
    Typed except m (suc n) × NoneTyped except before (suc n)
Chosen (negsuc n) except before m after =
    (m.mtype ≤ n + 1) × AllAbove before m.mtype × AllFrom after m.mtype

-- No message is for such a receiver.
abbrev pub NoneFor : ℤ → Bool → List Msg → Type 0
NoneFor (pos zero) except ms = ms ≡ []
NoneFor (pos (suc n)) except ms = NoneTyped except ms (suc n)
NoneFor (negsuc n) except ms = AllAbove ms (n + 1)

pub record Finds (msgtyp : ℤ) (except : Bool) (ms : List Msg) (i : ℕ) : Type 0 where
  pub before : List Msg
  pub msg : Msg
  pub after : List Msg
  pub whole : ms ≡ before ++ (msg ∷ after)
  pub at : i ≡ length before
  pub chosen : Chosen msgtyp except before msg after

abbrev pub Found : ℤ → Bool → List Msg → Option ℕ → Type 0
Found msgtyp except ms none = NoneFor msgtyp except ms
Found msgtyp except ms (some i) = Finds msgtyp except ms i

Found-cons :
    (n : ℕ) (except : Bool) (m : Msg) (ms : List Msg) (o : Option ℕ)
    → Typed (not except) m (suc n)
    → Found (pos (suc n)) except ms o
    → Found (pos (suc n)) except (m ∷ ms) (Option.map (λ i. i + 1) o)
Found-cons n except m ms none h f = (h, f)
Found-cons n except m ms (some i) h f = record {
  before = m ∷ f.before;
  msg = f.msg;
  after = f.after;
  whole = ap (λ l. m ∷ l) f.whole;
  at = omega (arith, f.at);
  chosen = (f.chosen.0, (h, f.chosen.1));
}

position-Found :
    (n : ℕ) (except : Bool) (ms : List Msg)
    → Found (pos (suc n)) except ms (position ms (suc n) except)
unfolding position
position-Found n except [] = tt
position-Found n true (m ∷ ms) =
    if_cases (Found (pos (suc n)) true (m ∷ ms)) (not (m.mtype == suc n))
      (λ e. record {
        before = [];
        msg = m;
        after = ms;
        whole = refl;
        at = refl;
        chosen = (ground arith, tt);
      })
      (λ e.
        Found-cons n true m ms (position ms (suc n) true) (ground arith) (position-Found n true ms))
position-Found n false (m ∷ ms) =
    if_cases (Found (pos (suc n)) false (m ∷ ms)) (m.mtype == suc n)
      (λ e. record {
        before = [];
        msg = m;
        after = ms;
        whole = refl;
        at = refl;
        chosen = (ground arith, tt);
      })
      (λ e.
        Found-cons n false m ms (position ms (suc n) false) (ground arith)
          (position-Found n false ms))

least-Found :
    (n : ℕ) (except : Bool) (ms : List Msg) (o : Option (ℕ × ℕ))
    → IsLeast ms (n + 1) o
    → Found (negsuc n) except ms (Option.map (λ b. b.0) o)
least-Found n except ms none h = h
least-Found n except ms (some (i, t)) h = record {
  before = h.before;
  msg = h.msg;
  after = h.after;
  whole = h.whole;
  at = h.at;
  chosen = rw (← h.type) (h.low, h.earlier, h.later);
}

-- `find_msg` finds the message that the receiver is to get, and fails only when there is none.
pub find_msg-Found :
    (q : MsgQueue) (msgtyp : ℤ) (msgflg : MsgFlags)
    → Found msgtyp msgflg.msg_except q.msgs (find_msg q msgtyp msgflg)
unfolding find_msg
find_msg-Found q msgtyp msgflg = found q.msgs msgtyp
  where
    found :
        (ms : List Msg) (msgtyp : ℤ)
        → Found msgtyp msgflg.msg_except ms (find_msg (record q { msgs = ms }) msgtyp msgflg)
    found [] (pos zero) = refl
    found [] (pos (suc n)) = tt
    found [] (negsuc n) = tt
    found (m ∷ ms) (pos zero) = record {
      before = [];
      msg = m;
      after = ms;
      whole = refl;
      at = refl;
      chosen = refl;
    }
    found (m ∷ ms) (pos (suc n)) =
        let positive : (suc n == 0) ≡ false = ground arith in
        rw (positive, find_msg) (position-Found n msgflg.msg_except (m ∷ ms))
    found (m ∷ ms) (negsuc n) =
        least-Found n msgflg.msg_except (m ∷ ms) (find_least (m ∷ ms) (n + 1) 0 none)
          (find_least-IsLeast [] (m ∷ ms) (n + 1) none tt)
