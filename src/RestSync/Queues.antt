-- ===== src/RestSync/Queues.antt =====
-- bitmex_mm/REST_Sync.hpp: what a round takes from the queues, sends and counts.
use bitmex_market_maker.Base.{
  ℕ, ◌+◌, ◌≡◌, refl, ap, ◌∙◌, true, List, [], ◌∷◌, ◌++◌, arith, length, Yields, Yields-bind,
  Yields-mono, yields, ◌≤◌,
}
use mathlib.Core.List.{append_assoc, append-nil}
use bitmex_market_maker.Text.{Bytes}
use bitmex_market_maker.Auth.{Keys}
use bitmex_market_maker.RestSync.{
  Verb, post, put, Request, RestSync, Answer, Round, send_new_order, send_upd_order, take_new,
  take_upd, take_queued,
}

abbrev pub post_body : Verb → Bytes → List Bytes
post_body post b = b ∷ []
post_body _ b = []

abbrev pub put_body : Verb → Bytes → List Bytes
put_body put b = b ∷ []
put_body _ b = []

-- The bodies of the new orders among the requests, in the order of sending.
abbrev pub posted : List Request → List Bytes
posted [] = []
posted (r ∷ rs) = post_body r.verb r.body ++ posted rs

-- The bodies of the updates.
abbrev pub updated : List Request → List Bytes
updated [] = []
updated (r ∷ rs) = put_body r.verb r.body ++ updated rs

posted-append : (rs qs : List Request) → posted (rs ++ qs) ≡ posted rs ++ posted qs
posted-append [] qs = refl
posted-append (r ∷ rs) qs = simp (posted-append rs qs, append_assoc)

updated-append : (rs qs : List Request) → updated (rs ++ qs) ≡ updated rs ++ updated qs
updated-append [] qs = refl
updated-append (r ∷ rs) qs = simp (updated-append rs qs, append_assoc)

pub length-append {ℓ} : {A : Type ℓ} (xs ys : List A) → length (xs ++ ys) ≡ length xs + length ys
length-append [] ys = omega arith
length-append (x ∷ xs) ys = omega (arith, length-append xs ys)

-- 1 if there is something to send.
abbrev pub busy : List Bytes → ℕ
busy [] = 0
busy (x ∷ xs) = 1

pub busy-le : (xs : List Bytes) → busy xs ≤ 1
busy-le [] = omega arith
busy-le (x ∷ xs) = omega arith

-- The outside lets a sending return.
pub record IsAnswered (a : Answer) : Type 0 where
  pub written : a.written ≡ true
  pub replied : a.replied ≡ true

pub record AllAnswered (r : Round) : Type 0 where
  pub on_new : IsAnswered r.on_new
  pub on_upd : IsAnswered r.on_upd

-- `n` requests go out, of what stands at the front of the queues.
pub record Sent (n : ℕ) (s s' : RestSync) : Type 0 where
  pub new : posted s'.sent ++ s'.new_order_q ≡ posted s.sent ++ s.new_order_q
  pub upd : updated s'.sent ++ s'.upd_order_q ≡ updated s.sent ++ s.upd_order_q
  pub count : length s'.sent ≡ length s.sent + n
  pub second : s'.second_msgs_sent ≡ s.second_msgs_sent + n
  pub minute : s'.minute_msgs_sent ≡ s.minute_msgs_sent + n
  pub second_start : s'.second_start ≡ s.second_start
  pub minute_start : s'.minute_start ≡ s.minute_start

module _ (hmac : Bytes → Bytes → Bytes) (keys : Keys) where
  take_new-Sent :
      (a : Answer) (q : List Bytes) (s : RestSync)
      → IsAnswered a
      → s.new_order_q ≡ q
      → Yields
          (λ s'.
            Sent (busy q) s s'
            × ((s'.upd_order_q ≡ s.upd_order_q) × (length s'.new_order_q + busy q ≡ length q)))
          (take_new hmac keys q a s)
  unfolding take_new send_new_order
  take_new-Sent a [] s ok e = yields (
    record {
      new = refl;
      upd = refl;
      count = omega arith;
      second = omega arith;
      minute = omega arith;
      second_start = refl;
      minute_start = refl;
    },
    (refl, rw e (omega arith)),
  )
  take_new-Sent a (m ∷ q) s ok e =
      rw (ok.written, ok.replied)
        (yields (
          record {
            new = simp (posted-append, append_assoc, e);
            upd = simp (updated-append, append-nil);
            count = omega (arith, length-append {0} s.sent);
            second = refl;
            minute = refl;
            second_start = refl;
            minute_start = refl;
          },
          (refl, omega arith),
        ))

  take_upd-Sent :
      (a : Answer) (q : List Bytes) (s : RestSync)
      → IsAnswered a
      → s.upd_order_q ≡ q
      → Yields
          (λ s'.
            Sent (busy q) s s'
            × ((s'.new_order_q ≡ s.new_order_q) × (length s'.upd_order_q + busy q ≡ length q)))
          (take_upd hmac keys q a s)
  unfolding take_upd send_upd_order
  take_upd-Sent a [] s ok e = yields (
    record {
      new = refl;
      upd = refl;
      count = omega arith;
      second = omega arith;
      minute = omega arith;
      second_start = refl;
      minute_start = refl;
    },
    (refl, rw e (omega arith)),
  )
  take_upd-Sent a (m ∷ q) s ok e =
      rw (ok.written, ok.replied)
        (yields (
          record {
            new = simp (posted-append, append-nil);
            upd = simp (updated-append, append_assoc, e);
            count = omega (arith, length-append {0} s.sent);
            second = refl;
            minute = refl;
            second_start = refl;
            minute_start = refl;
          },
          (refl, omega arith),
        ))

  -- Both queues are looked at, the new orders first.
  pub take_queued-Sent :
      (r : Round) (s : RestSync)
      → AllAnswered r
      → Yields
          (λ s'.
            Sent (busy s.new_order_q + busy s.upd_order_q) s s'
            × ((length s'.new_order_q + busy s.new_order_q ≡ length s.new_order_q)
                × (length s'.upd_order_q + busy s.upd_order_q ≡ length s.upd_order_q)))
          (take_queued hmac keys r s)
  unfolding take_queued
  take_queued-Sent r s ok =
      Yields-bind (take_new-Sent r.on_new s.new_order_q s ok.on_new refl) λ s1 p.
        Yields-mono (take_upd-Sent r.on_upd s1.upd_order_q s1 ok.on_upd refl) λ s2 q. (
          record {
            new = q.0.new ∙ p.0.new;
            upd = q.0.upd ∙ p.0.upd;
            count = omega (arith, q.0.count, p.0.count, ap busy p.1.0);
            second = omega (arith, q.0.second, p.0.second, ap busy p.1.0);
            minute = omega (arith, q.0.minute, p.0.minute, ap busy p.1.0);
            second_start = q.0.second_start ∙ p.0.second_start;
            minute_start = q.0.minute_start ∙ p.0.minute_start;
          },
          (
            omega (arith, ap length q.1.0, p.1.1),
            omega (arith, q.1.1, ap busy p.1.0, ap length p.1.0),
          ),
        )
