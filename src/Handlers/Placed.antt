-- ===== src/Handlers/Placed.antt =====
-- What the answer of `CreateOrder` of internal/handler/order.go says of the tables.
use go_order_lab.Prelude.{
  ℕ, ◌≤◌, ◌≡◌, refl, none, some, Result, ok, err, Error, Result-cases, inl, inr, ◌⊎◌, ℤ, Text,
  arith, activity_not_found, activity_not_available, sold_out, duplicate_order, order_not_found,
  illegal_transition, canceled, deadline_exceeded, record_not_found, failure,
}
use go_order_lab.Floats.{Floats}
use go_order_lab.Model.{Order}
use go_order_lab.Env.{Env, World}
use go_order_lab.Env.Atomic.{SameTables, SameTables-refl}
use go_order_lab.Orders.Service.{OrderService, error_text}
use go_order_lab.Orders.Create.{CreateOrderInput, Reads, create_order_context}
use go_order_lab.Orders.Effect.Create.{Created, create_order_context-Created}
use go_order_lab.Orders.Atomic.{create_order_context-atomic}
use go_order_lab.Http.{Context, error_response}
use go_order_lab.Http.Auth.{user_id_of}
use go_order_lab.Http.Answers.{Payload, App, order_error_status}
use go_order_lab.Handlers.Orders.{accepted_answer, create_order}

pub order_error_status_lem : (e : Error) → 400 ≤ order_error_status e
unfolding order_error_status
order_error_status_lem activity_not_found = omega arith
order_error_status_lem activity_not_available = omega arith
order_error_status_lem sold_out = omega arith
order_error_status_lem duplicate_order = omega arith
order_error_status_lem order_not_found = omega arith
order_error_status_lem illegal_transition = omega arith
order_error_status_lem canceled = omega arith
order_error_status_lem deadline_exceeded = omega arith
order_error_status_lem record_not_found = omega arith
order_error_status_lem (failure t) = omega arith

module _ {E : Env} {R : Floats} (w : World E) (m : Context Payload × App E R) where
  -- 202, with the order that is in the table now.
  pub record Accepted (S : OrderService) (body : Result CreateOrderInput) (reads : Reads)
      (user_id : ℕ) : Type 0 where
    pub input : CreateOrderInput
    pub decoded : body ≡ ok input
    pub order : Order
    pub stock_left : ℤ
    pub answer : (m.0).response ≡ some (accepted_answer (order, stock_left))
    pub created : Created E user_id reads S input.activity_id order w (m.1).world

  -- An error's status, and no table but the log has changed.
  pub record Declined : Type 0 where
    pub status : ℕ
    pub message : Text
    pub answer : (m.0).response ≡ some (error_response status message)
    pub is_error : 400 ≤ status
    pub tables : SameTables E w.db ((m.1).world).db

module _ (E : Env) (R : Floats) (S : OrderService) (reads : Reads) where
  create_order-decoded :
      (input : CreateOrderInput) (c : Context Payload) (a : App E R)
      → c.response ≡ none
      → Accepted a.world
          (create_order E R S (ok input) reads (c, a))
          S
          (ok input)
          reads
          (user_id_of c)
        ⊎ Declined a.world (create_order E R S (ok input) reads (c, a))
  unfolding create_order
  create_order-decoded input c a fresh =
      let m = create_order_context E S (user_id_of c) input reads a.world in
      elim (Result-cases m.0) [
        | inl ((order, left), done) ↦ inl (record {
          input = input;
          decoded = refl;
          order = order;
          stock_left = left;
          answer = rw (create_order, done, fresh) refl;
          created =
              create_order_context-Created E (user_id_of c) reads S input a.world order left done;
        })
        | inr (e, failed) ↦ inr (record {
          status = order_error_status e;
          message = error_text e;
          answer = rw (create_order, failed, fresh) refl;
          is_error = order_error_status_lem e;
          tables = create_order_context-atomic E S (user_id_of c) reads input a.world e failed;
        })
      ]

  create_order-undecoded :
      (e : Error) (c : Context Payload) (a : App E R)
      → c.response ≡ none
      → Declined a.world (create_order E R S (err e) reads (c, a))
  unfolding create_order
  create_order-undecoded e c a fresh = record {
    status = 400;
    message = error_text e;
    answer = rw fresh refl;
    is_error = omega arith;
    tables = SameTables-refl E a.world.db;
  }

  -- The answer is 202 with the order that was placed, or an error and no table but the log changed.
  pub create_order-answers :
      (body : Result CreateOrderInput) (c : Context Payload) (a : App E R)
      → c.response ≡ none
      → Accepted a.world (create_order E R S body reads (c, a)) S body reads (user_id_of c)
        ⊎ Declined a.world (create_order E R S body reads (c, a))
  create_order-answers (ok input) c a fresh = create_order-decoded input c a fresh
  create_order-answers (err e) c a fresh = inr (create_order-undecoded e c a fresh)
