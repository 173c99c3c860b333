-- ===== src/BookStream/Messages.antt =====
-- bitmex_mm/OrderBookStream.hpp: the messages of the loop of `run`, against the view of the two books.
use bitmex_market_maker.Base.{
  ℕ, ◌<◌, ◌∙◌, Option, some, List, [], ◌∷◌, arith, eq_bytes, if-cases, Yields, Yields-bind,
  Yields-mono, yields,
}
use bitmex_market_maker.Text.{Bytes, bytes}
use bitmex_market_maker.Book.{Ptr}
use bitmex_market_maker.Book.Ask
use bitmex_market_maker.Book.Valid.{Headed}
use bitmex_market_maker.BookStream.{
  BookStream, BookMsg, on_update, do_update, do_insert, do_delete, after_levels, follow_prices,
  get_bba, on_message, follow, each_level,
}
use bitmex_market_maker.BookStream.Rows.{Row, messages}
use bitmex_market_maker.BookStream.Settled.{IsSettled}
use bitmex_market_maker.BookStream.Follow.{on_insert_or_delete-Left, on_update-silent}
use bitmex_market_maker.BookStream.Volumes.{HasVols}
use bitmex_market_maker.BookStream.View.{
  Action, updating, inserting, deleting, body, View, apply_all, AllAllowed, Shows, each_level-Shows,
}

abbrev action_of : Action → Bytes
action_of updating = bytes "update"
action_of inserting = bytes "insert"
action_of deleting = bytes "delete"

-- A message of the stream, its action and levels.
abbrev pub book_msg : Action × List Row → BookMsg
book_msg (a, rows) = record { action = action_of a; levels = messages rows }

abbrev pub book_msgs : List (Action × List Row) → List (Option BookMsg)
book_msgs [] = []
book_msgs (m ∷ ms) = some (book_msg m) ∷ book_msgs ms

abbrev pub apply_messages : List (Action × List Row) → View → View
apply_messages [] v = v
apply_messages (m ∷ ms) v = apply_messages ms (apply_all m.0 m.1 v)

abbrev HasFirst : List ℕ → (ℕ → ℕ) → Type 0
HasFirst [] vols = ⊥
HasFirst (y ∷ ys) vols = 0 < vols y

-- There is a best ask, with a volume.
abbrev pub HasAsk : View → Type 0
HasAsk v = HasFirst v.asks v.ask_vols

module _ (bid_bottom ask_bottom : Ptr) where
  -- Each message fits the books that the messages before it leave, and leaves a best ask with a
  -- volume.
  abbrev pub AllFit : List (Action × List Row) → View → Type 0
  AllFit [] v = Unit
  AllFit (m ∷ ms) v =
      AllAllowed bid_bottom ask_bottom m.0 m.1 v
      × HasAsk (apply_all m.0 m.1 v)
      × AllFit ms (apply_all m.0 m.1 v)

  -- The books are those of the view, and every open order stands at its target price.
  pub record IsTracking (v : View) (s : BookStream) : Type 0 where
    pub shows : Shows bid_bottom ask_bottom v s
    pub settled : IsSettled s.trading

  pub ask_volume :
      (v : View) (s : BookStream)
      → Shows bid_bottom ask_bottom v s
      → HasAsk v
      → 0 < Ask.best_vol s.ask_ob
  unfolding Ask.best_vol
  ask_volume v s w h = by_first v.asks w.ask_book.headed w.ask_vols h
    where
      by_first :
          (xs : List ℕ)
          → Headed ask_bottom s.ask_ob.head xs
          → HasVols xs v.ask_vols s.ask_ob
          → HasFirst xs v.ask_vols
          → 0 < (s.ask_ob.cell s.ask_ob.head).vol
      by_first [] e vols first = absurd first
      by_first (y ∷ ys) e vols first = rw (e, vols y (ground arith)) first

  -- The end of `do_update`.
  update-IsTracking :
      (v : View) (s : BookStream) → IsTracking v s → HasAsk v → Yields (IsTracking v) (on_update s)
  update-IsTracking v s t h = rw (on_update-silent s t.settled (ask_volume v s t.shows h)) (
      yields (record {
        shows = record {
          bid_book = t.shows.bid_book;
          ask_book = t.shows.ask_book;
          bid_vols = t.shows.bid_vols;
          ask_vols = t.shows.ask_vols;
          flag = t.shows.flag;
        };
        settled = t.settled;
      }))

  module _ (out_of_int : ℕ) where
    after_levels-IsTracking :
        (v : View) (s : BookStream)
        → IsTracking v s
        → HasAsk v
        → Yields (IsTracking v) (after_levels out_of_int s)
    unfolding after_levels get_bba
    after_levels-IsTracking v s t h =
        if-cases (Yields (IsTracking v)) s.is_bba_upd
          (λ _.
            Yields-mono
              (on_insert_or_delete-Left (follow_prices out_of_int (get_bba s))
                (ask_volume v s t.shows h))
              λ s' l. record {
                shows = record {
                  bid_book = rw l.bid_ob t.shows.bid_book;
                  ask_book = rw l.ask_ob t.shows.ask_book;
                  bid_vols = rw l.bid_ob t.shows.bid_vols;
                  ask_vols = rw l.ask_ob t.shows.ask_vols;
                  flag = l.flag ∙ t.shows.flag;
                };
                settled = l.followed.settled;
              })
          (λ _. yields t)

    levels-IsTracking :
        (a : Action) (rows : List Row) (v : View) (s : BookStream)
        → AllAllowed bid_bottom ask_bottom a rows v
        → IsTracking v s
        → Yields (IsTracking (apply_all a rows v)) (each_level (body a) (messages rows) s)
    levels-IsTracking a rows v s ok t =
        Yields-mono (each_level-Shows bid_bottom ask_bottom a rows v s ok t.shows)
          λ s' p. record { shows = p.0; settled = rw p.1 t.settled }

    message-IsTracking :
        (a : Action) (rows : List Row) (v : View) (s : BookStream)
        → AllAllowed bid_bottom ask_bottom a rows v
        → HasAsk (apply_all a rows v)
        → IsTracking v s
        → Yields (IsTracking (apply_all a rows v)) (on_message out_of_int (book_msg (a, rows)) s)
    unfolding on_message do_update do_insert do_delete eq_bytes
    message-IsTracking updating rows v s ok h t =
        Yields-bind (levels-IsTracking updating rows v s ok t) λ s1 t1. update-IsTracking _ s1 t1 h
    message-IsTracking inserting rows v s ok h t =
        Yields-bind (levels-IsTracking inserting rows v s ok t)
          λ s1 t1. after_levels-IsTracking _ s1 t1 h
    message-IsTracking deleting rows v s ok h t =
        Yields-bind (levels-IsTracking deleting rows v s ok t)
          λ s1 t1. after_levels-IsTracking _ s1 t1 h

    pub follow-IsTracking :
        (ms : List (Action × List Row)) (v : View) (s : BookStream)
        → AllFit ms v
        → IsTracking v s
        → Yields (IsTracking (apply_messages ms v)) (follow out_of_int (book_msgs ms) s)
    unfolding follow
    follow-IsTracking [] v s ok t = yields t
    follow-IsTracking ((a, rows) ∷ ms) v s ok t =
        Yields-bind (message-IsTracking a rows v s ok.0 ok.1 t)
          λ s1 t1. follow-IsTracking ms (apply_all a rows v) s1 ok.2 t1
