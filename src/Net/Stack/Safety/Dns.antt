-- ===== src/Net/Stack/Safety/Dns.antt =====
-- kernel/net.c: no UDP packet makes the reader of DNS responses read outside of it.
use un_orion.Common.{
  ℕ, zero, suc, ◌+◌, ◌-◌, ◌≤◌, bit_and, not, ◌&&◌, ◌||◌, Option, none, some, Bytes, drop, length,
  length-drop, ltb, ◌==◌, done, Always, Always-bind, Always-if, Always-read, Always-read_block,
  arith,
}
use un_orion.Net.State.{Net}
use un_orion.Net.Stack.Receive.{
  skip_labels, dns_skip_name, skip_questions, find_answer, dns_answer_of, set_answer, handle_dns,
  handle_udp,
}
use un_orion.Net.Stack.Safety.{Always-get16, Fits}

-- `dns_skip_name` reads only inside the message.
skip_labels-Always :
    (fuel : ℕ) (d : Bytes) (n o : ℕ) → n ≤ length d → Always (λ e. Unit) (skip_labels fuel d n o)
unfolding skip_labels
skip_labels-Always zero d n o h = tt
skip_labels-Always (suc fuel) d n o h =
    Always-if _ (not (ltb o n)) _ _ (λ e. tt)
      (λ inside. Always-read _ d o _ (ground arith) (λ z.
        Always-if _ (z == 0) _ _ (λ e. tt)
          (λ e.
            Always-if _ (bit_and z 0xc0 == 0xc0) _ _ (λ e. tt)
              (λ e.
                Always-if _ (not (bit_and z 0xc0 == 0) || ltb 63 z || ltb n (o + 1 + z)) _ _
                  (λ e. tt) (λ e. skip_labels-Always fuel d n (o + 1 + z) h)))))

skip_questions-Always :
    (qd : ℕ) (d : Bytes) (n o : ℕ) → n ≤ length d → Always (λ e. Unit) (skip_questions qd d n o)
unfolding skip_questions dns_skip_name
skip_questions-Always zero d n o h = tt
skip_questions-Always (suc qd) d n o h =
    Always-bind (λ e. Unit) _ (dns_skip_name d n o) _ (skip_labels-Always 128 d n o h)
      (λ e u.
        Always-if _ (ltb n e || ltb n (e + 4)) _ _ (λ a. tt)
          (λ a. skip_questions-Always qd d n (e + 4) h))

find_answer-Always :
    (an : ℕ) (d : Bytes) (n o : ℕ) → n ≤ length d → Always (λ e. Unit) (find_answer an d n o)
unfolding find_answer dns_skip_name
find_answer-Always zero d n o h = tt
find_answer-Always (suc an) d n o h =
    Always-bind (λ e. Unit) _ (dns_skip_name d n o) _ (skip_labels-Always 128 d n o h)
      (λ e u.
        Always-if _ (ltb n e || ltb n (e + 10)) _ _ (λ a. tt)
          (λ a. Always-get16 _ d e _ (ground arith) (λ typ.
            Always-get16 _ d (e + 2) _ (ground arith) (λ cls.
              Always-get16 _ d (e + 8) _ (ground arith) (λ rdl.
                Always-if _ (ltb n (e + 10 + rdl)) _ _ (λ b. tt)
                  (λ b.
                    Always-if _ (typ == 1 && cls == 1 && rdl == 4) _ _
                      (λ c. Always-read_block _ d (e + 10) 4 _ (ground arith) (λ bs l. tt))
                      (λ c. find_answer-Always an d n (e + 10 + rdl) h)))))))

after_questions :
    (an : ℕ) (d : Bytes) (n : ℕ) (o : Option ℕ)
    → n ≤ length d
    → Always (λ e. Unit) (elim o [ none ↦ done none | some e ↦ find_answer an d n e ])
after_questions an d n none h = tt
after_questions an d n (some e) h = find_answer-Always an d n e h

dns_answer_of-Always :
    (d : Bytes) (n : ℕ) → 12 ≤ n → n ≤ length d → Always (λ e. Unit) (dns_answer_of d n)
unfolding dns_answer_of
dns_answer_of-Always d n k h = Always-get16 _ d 4 _ (omega arith) (λ qd.
    Always-get16 _ d 6 _ (omega arith) (λ an.
      Always-bind (λ o. Unit) _ (skip_questions qd d n 12) _ (skip_questions-Always qd d n 12 h)
        (λ o u. after_questions an d n o h)))

module _ {W : Type 0} where
  set_answer-Fits : (a : Option Bytes) (n : Net W) → Fits n → Fits (set_answer a n)
  unfolding Fits
  set_answer-Fits none n h = h
  set_answer-Fits (some a) n h = h

  handle_dns-Fits :
      (d : Bytes) (size : ℕ) (n : Net W)
      → size ≤ length d
      → Fits n
      → Always Fits (handle_dns d size n)
  unfolding handle_dns Fits
  handle_dns-Fits d size n h k =
      Always-if Fits (ltb size 12) _ _ (λ a. k)
        (λ a. Always-get16 Fits d 0 _ (ground arith) (λ id.
          Always-get16 Fits d 2 _ (ground arith) (λ flags.
            Always-if Fits (not (id == n.dns_id) || bit_and flags 0x8000 == 0) _ _ (λ b. k)
              (λ b.
                Always-if Fits (not (bit_and flags 0x000f == 0)) _ _ (λ c. k)
                  (λ c.
                    Always-bind (λ e. Unit) Fits (dns_answer_of d size) _
                      (dns_answer_of-Always d size (ground arith) h)
                      (λ o u. set_answer-Fits o n k))))))

  pub handle_udp-Fits :
      (p : Bytes) (len : ℕ) (n : Net W) → len ≤ length p → Fits n → Always Fits (handle_udp p len n)
  unfolding handle_udp
  handle_udp-Fits p len n h k =
      Always-if Fits (ltb len 8) _ _ (λ a. k)
        (λ a. Always-get16 Fits p 0 _ (ground arith) (λ sp.
          Always-get16 Fits p 2 _ (ground arith) (λ dp.
            Always-get16 Fits p 4 _ (ground arith) (λ ulen.
              Always-if Fits
                (ltb ulen 8
                  || ltb len ulen
                  || not (sp == 53)
                  || n.dns_id == 0
                  || not (dp == n.dns_port))
                _ _ (λ b. k)
                (λ b.
                  handle_dns-Fits (drop 8 p) (ulen - 8) n (ground (arith, length-drop 8 p)) k)))))
