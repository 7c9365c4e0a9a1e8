-- ===== src/Redis/Chunks.antt =====
-- core/uredis.cpp, `read_reply` on a reply that comes in pieces, and what a command leaves of its
-- connection.
use uco.Prelude.{
  suc, ◌≡◌, ◌≢◌, refl, ap, sym, ◌∙◌, List, [], ◌∷◌, ◌++◌, length, arith, length-append, map,
}
use mathlib.Core.List.{append-nil, append_assoc}
use uco.Prelude.Bytes.{Bytes, All}
use uco.Redis.Reply.{Reply}
use uco.Redis.Parse.{Parsed, done, more, bad, undefined, thrown, spent, parse_one, parse_reply}
use uco.Redis.Resume.{Agrees, parse_one-Agrees}
use uco.Redis.Fuel.{parse_reply_ends}
use uco.Redis.Wire.{Resp, print, value, IsWire}
use uco.Redis.RoundTrip.{parse_one-print, parse_reply-print}
use uco.Redis.Exchange.{Receive, received, got, on_parsed, read_loop, read_reply}

done-rest : {a v : Reply} (r t : Bytes) → done a (r ++ t) ≡ done v [] → t ≡ []
done-rest [] t h = cc
done-rest (x ∷ r) t h = cc

only_more :
    (p q : Parsed Reply) (v : Reply) (t : Bytes)
    → Agrees t p q
    → q ≡ done v []
    → t ≢ []
    → p ≢ spent
    → p ≡ more
only_more (done a r) q v t h e ne ns = absurd (ne (done-rest r t (sym h ∙ e)))
only_more more q v t h e ne ns = refl
only_more bad q v t h e ne ns = cc
only_more undefined q v t h e ne ns = cc
only_more thrown q v t h e ne ns = cc
only_more spent q v t h e ne ns = absurd (ns refl)

-- Of a text of the protocol that is not there as a whole, the parser asks for more.
pub parse_reply-prefix :
    (r : Resp) (s t : Bytes) → IsWire r → s ++ t ≡ print r → t ≢ [] → parse_reply s ≡ more
parse_reply-prefix r s t w e ne =
    let fuel = suc (length (print r)) in
    let (same, ends) = parse_reply_ends s fuel (omega (arith, ap length e, length-append s t)) in
    let whole : parse_one fuel (s ++ t) ≡ done (value r) [] =
      ap (parse_one fuel) (e ∙ sym (append-nil (print r)))
      ∙ parse_one-print fuel r [] w (omega arith) in
    sym same
    ∙ only_more (parse_one fuel s) (parse_one fuel (s ++ t)) (value r) t (parse_one-Agrees fuel s t)
        whole ne (λ h. ends (sym same ∙ h))

-- The pieces as they are received.
abbrev pub chunks : List Bytes → List Receive
chunks l = map received l

abbrev pub joined : List Bytes → Bytes
joined [] = []
joined (c ∷ l) = c ++ joined l

read_loop-done :
    (buf : Bytes) (es : List Receive) {v : Reply} {rest : Bytes}
    → parse_reply buf ≡ done v rest
    → read_loop buf es ≡ got v rest
unfolding read_loop on_parsed
read_loop-done buf [] h = rw h refl
read_loop-done buf (Receive.receive_expired ∷ es) h = rw h refl
read_loop-done buf (Receive.refused n ∷ es) h = rw h refl
read_loop-done buf (received [] ∷ es) h = rw h refl
read_loop-done buf (received (c ∷ s) ∷ es) h = rw h refl

read_loop-chunks :
    (r : Resp) (buf : Bytes) (l : List Bytes) (later : List Receive)
    → IsWire r
    → All (λ (c : Bytes). c ≢ []) l
    → buf ++ joined l ≡ print r
    → read_loop buf (chunks l ++ later) ≡ got (value r) []
unfolding read_loop on_parsed
read_loop-chunks r buf [] later w ne e = read_loop-done buf later (
    ap parse_reply (sym (append-nil buf) ∙ e ∙ sym (append-nil (print r)))
    ∙ parse_reply-print r [] w)
read_loop-chunks r buf ([] ∷ l) later w ne e = absurd (ne.0 refl)
read_loop-chunks r buf ((x ∷ c) ∷ l) later w ne e =
    rw (parse_reply-prefix r buf ((x ∷ c) ++ joined l) w e (λ h. cc))
      (read_loop-chunks r (buf ++ (x ∷ c)) l later w ne.1 (append_assoc buf (x ∷ c) (joined l) ∙ e))

-- A reply within the client's limits is returned, and nothing is left in the buffer, when its bytes
-- have come, in whatever pieces they come and whatever happens on the connection later.
pub read_reply-chunks :
    (r : Resp) (l : List Bytes) (later : List Receive)
    → IsWire r
    → All (λ (c : Bytes). c ≢ []) l
    → joined l ≡ print r
    → read_reply (chunks l ++ later) ≡ got (value r) []
unfolding read_reply
read_reply-chunks r l later w ne e = read_loop-chunks r [] l later w ne e
