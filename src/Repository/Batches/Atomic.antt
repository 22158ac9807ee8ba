-- ===== src/Repository/Batches/Atomic.antt =====
-- How the transaction of a batch can end.
use mathlib.Core.List.{append-nil, append_assoc}
use notification_system.Base.{
  ℕ, suc, String, List, [], ◌∷◌, ◌++◌, ◌≡◌, ◌≢◌, ◌⊎◌, inl, inr, refl, sym, ap, ◌∙◌, arith, Each,
  subst,
}
use notification_system.Domain.Errors.{Result, ok, err, Error}
use notification_system.Domain.Notification.{Notification}
use notification_system.World.{
  Env, World, Verdict, answered, refused, unread, call, bind, draw_uuid,
}
use notification_system.Repository.Sql.{Inserted, illegal, duplicate, stored, insert}
use notification_system.Repository.Notifications.{with_defaults, new_row}
use notification_system.Repository.Tables.{IsTable, insert-IsTable}
use notification_system.Repository.Batches.{
  Progress, failed_item, insert_at, insert_after, insert_item, insert_items, in_order, commit_after,
  commit, begin_after, create_batch,
}
use notification_system.Repository.Batches.Created.{IsRowOf, new_row-IsRowOf}

-- The last call that the transaction has made was answered so.
abbrev pub IsLast : Env → Verdict → World → Type 0
IsLast env v w = (k : ℕ) × (suc k ≡ w.calls) × ((env.answer k).verdict ≡ v)

-- Why a batch is given up: its last call was refused or lost its answer, or the row of an item is
-- illegal or a duplicate behind the rows of the items before it.
pub data Cause (env : Env) (rows ns : List Notification) (w : World) : Type 0 where
  failed_call : (v : Verdict) → v ≢ answered → IsLast env v w → Cause env rows ns w
  rejected_item :
      (before after made : List Notification) (n row : Notification)
      → before ++ n ∷ after ≡ ns
      → Each (IsRowOf env) before made
      → IsRowOf env n row
      → (insert row (rows ++ made) ≡ illegal) ⊎ (insert row (rows ++ made) ≡ duplicate)
      → Cause env rows ns w

-- How a batch of `ns` can end, on a table that was `rows`: with an error, for a cause, and the table
-- unchanged; with a new row for each item, in their order, behind the old ones, which are returned;
-- or with these rows in the table and an error, when the answer to the last call, the COMMIT, is
-- lost. The rows are legal and distinct then.
pub data Outcome (env : Env) (rows ns : List Notification)
    : Result (List Notification) × World → Type 0 where
  aborted :
      (e : Error) (w : World) → w.rows ≡ rows → Cause env rows ns w → Outcome env rows ns (err e, w)
  committed :
      (created : List Notification) (w : World)
      → Each (IsRowOf env) ns created
      → w.rows ≡ rows ++ created
      → IsTable w.rows
      → Outcome env rows ns (ok created, w)
  unconfirmed :
      (e : Error) (created : List Notification) (w : World) (lost : String)
      → IsLast env (unread lost) w
      → Each (IsRowOf env) ns created
      → w.rows ≡ rows ++ created
      → IsTable w.rows
      → Outcome env rows ns (err e, w)

in_order-append : (ns out : List Notification) → in_order ns out ≡ in_order ns [] ++ out
in_order-append [] out = refl
in_order-append (n ∷ ns) out =
    in_order-append ns (n ∷ out)
    ∙ (sym (append_assoc (in_order ns []) (n ∷ []) out)
        ∙ ap (λ l. l ++ out) (sym (in_order-append ns (n ∷ []))))

Each-append :
    (R : Notification → Notification → Type 0) (ns ms : List Notification) {n m : Notification}
    → Each R ns ms
    → R n m
    → Each R (ns ++ n ∷ []) (ms ++ m ∷ [])
Each-append R [] [] e r = (r, tt)
Each-append R (n ∷ ns) (m ∷ ms) (h, e) r = (h, Each-append R ns ms e r)
Each-append R [] (m ∷ ms) e r = absurd e
Each-append R (n ∷ ns) [] e r = absurd e

insert-stored-append :
    (n : Notification) (rows : List Notification) {rows' : List Notification}
    → insert n rows ≡ stored rows'
    → rows' ≡ rows ++ n ∷ []
unfolding insert
insert-stored-append n rows e = ground arith

module _ (env : Env) (rows all : List Notification) where
  -- The transaction's table is the old one with the rows of the items `before`.
  record Extends (p : Progress) (before : List Notification) : Type 0 where
    table : p.table ≡ rows ++ in_order p.created []
    each : Each (IsRowOf env) before (in_order p.created [])
    sound : IsTable p.table

  -- What a stage of the loop can end with.
  data Stage (before : List Notification) : Result Progress × World → Type 0 where
    stopped :
        (e : Error) (w : World) → w.rows ≡ rows → Cause env rows all w → Stage before (err e, w)
    going : (p : Progress) (w : World) → w.rows ≡ rows → Extends p before → Stage before (ok p, w)

  insert_at-Stage :
      (i : ℕ) (before after : List Notification) (p : Progress) (n row : Notification)
      (r : Inserted) (w : World)
      → before ++ n ∷ after ≡ all
      → w.rows ≡ rows
      → Extends p before
      → IsRowOf env n row
      → insert row p.table ≡ r
      → Stage (before ++ n ∷ []) (insert_at env i p row r, w)
  unfolding insert_at failed_item
  insert_at-Stage i before after p n row illegal w is h x of e = stopped _ w h (
      rejected_item before after (in_order p.created []) n row is x.each of
        (inl (ap (insert row) (sym x.table) ∙ e)))
  insert_at-Stage i before after p n row duplicate w is h x of e = stopped _ w h (
      rejected_item before after (in_order p.created []) n row is x.each of
        (inr (ap (insert row) (sym x.table) ∙ e)))
  insert_at-Stage i before after p n row (stored t) w is h x of e =
      let order : in_order p.created (row ∷ []) ≡ in_order p.created [] ++ row ∷ [] =
        in_order-append p.created (row ∷ []) in
      going _ w h (record {
        table =
            insert-stored-append row p.table e
            ∙ (ap (λ l. l ++ row ∷ []) x.table
                ∙ (append_assoc rows (in_order p.created []) (row ∷ [])
                    ∙ ap (λ l. rows ++ l) (sym order)));
        each =
            subst (Each (IsRowOf env) (before ++ n ∷ [])) (sym order)
              (Each-append (IsRowOf env) before (in_order p.created []) x.each of);
        sound = insert-IsTable row p.table e x.sound;
      })

  insert_after-Stage :
      (i started : ℕ) (before after : List Notification) (p : Progress) (n n' : Notification)
      (v : Verdict) (w : World)
      → before ++ n ∷ after ≡ all
      → w.rows ≡ rows
      → Extends p before
      → IsRowOf env n (new_row env started n')
      → IsLast env v w
      → Stage (before ++ n ∷ []) (insert_after env i started p n' (v, w))
  unfolding insert_after failed_item
  insert_after-Stage i started before after p n n' (refused m) w is h x of last =
      stopped _ w h (failed_call (refused m) (λ e. cc) last)
  insert_after-Stage i started before after p n n' (unread m) w is h x of last =
      stopped _ w h (failed_call (unread m) (λ e. cc) last)
  insert_after-Stage i started before after p n n' answered w is h x of last =
      insert_at-Stage i before after p n (new_row env started n') _ w is h x of refl

  with_defaults-rows : (n : Notification) (w : World) → (with_defaults env n w).1.rows ≡ w.rows
  unfolding with_defaults draw_uuid
  with_defaults-rows n w = ground arith

  Stage-bind :
      {before after : List Notification} {s : Result Progress × World}
      (rest : Progress → World → Result Progress × World)
      → Stage before s
      → ((p : Progress) (w : World) → w.rows ≡ rows → Extends p before → Stage after (rest p w))
      → Stage after (bind s rest)
  Stage-bind rest (stopped e w h c) ih = stopped e w h c
  Stage-bind rest (going p w h x) ih = ih p w h x

  insert_items-Stage :
      (i started : ℕ) (before ns : List Notification) (p : Progress) (w : World)
      → before ++ ns ≡ all
      → w.rows ≡ rows
      → Extends p before
      → Stage all (insert_items env i started ns p w)
  unfolding insert_items insert_item call
  insert_items-Stage i started before [] p w is h x =
      going p w h (subst (Extends p) (sym (append-nil before) ∙ is) x)
  insert_items-Stage i started before (n ∷ ns) p w is h x =
      let w' = (with_defaults env n w).1 in
      Stage-bind (insert_items env (suc i) started ns)
        (insert_after-Stage i started before ns p n (with_defaults env n w).0 (call env w').0
          (call env w').1 is (with_defaults-rows n w ∙ h) x (new_row-IsRowOf env started n w)
          (w'.calls, refl, refl))
        (λ p' w'' h' x'.
          insert_items-Stage (suc i) started (before ++ n ∷ []) ns p' w''
            (append_assoc before (n ∷ []) ns ∙ is) h' x')

  commit-Outcome :
      (p : Progress) (v : Verdict) (w : World)
      → w.rows ≡ rows
      → Extends p all
      → IsLast env v w
      → Outcome env rows all (commit_after p (v, w))
  unfolding commit_after
  commit-Outcome p answered w h x last = committed _ _ x.each x.table x.sound
  commit-Outcome p (refused m) w h x last = aborted _ w h (failed_call (refused m) (λ e. cc) last)
  commit-Outcome p (unread m) w h x last = unconfirmed _ _ _ m last x.each x.table x.sound

  Outcome-bind :
      {s : Result Progress × World} → Stage all s → Outcome env rows all (bind s (commit env))
  unfolding commit call
  Outcome-bind (stopped e w h c) = aborted e w h c
  Outcome-bind (going p w h x) =
      commit-Outcome p (call env w).0 (call env w).1 h x (w.calls, refl, refl)

  begin-Outcome :
      (v : Verdict) (w : World)
      → w.rows ≡ rows
      → IsTable rows
      → IsLast env v w
      → Outcome env rows all (begin_after env all (v, w))
  unfolding begin_after
  begin-Outcome (refused m) w h t last = aborted _ w h (failed_call (refused m) (λ e. cc) last)
  begin-Outcome (unread m) w h t last = aborted _ w h (failed_call (unread m) (λ e. cc) last)
  begin-Outcome answered w h t last = Outcome-bind (
      insert_items-Stage 0 w.now [] all _ w refl h
        (record { table = h ∙ sym (append-nil rows); each = tt; sound = rw h t }))

pub create_batch_atomic :
    (env : Env) (ns : List Notification) (w : World)
    → IsTable w.rows
    → Outcome env w.rows ns (create_batch env ns w)
unfolding create_batch call
create_batch_atomic env ns w table =
    begin-Outcome env w.rows ns (call env w).0 (call env w).1 refl table (w.calls, refl, refl)

-- The rows of a batch that is returned.
pub Outcome-rows :
    {env : Env} {rows ns : List Notification} {s : Result (List Notification) × World}
    {created : List Notification}
    → Outcome env rows ns s
    → s.0 ≡ ok created
    → (s.1.rows ≡ rows ++ created) × IsTable s.1.rows × Each (IsRowOf env) ns created
Outcome-rows (aborted e w same c) h = cc
Outcome-rows {env} {rows} {ns} (committed created w each r sound) h =
    (ground arith, sound, subst (Each (IsRowOf env) ns) (ground arith) each)
Outcome-rows (unconfirmed e created w m last each r sound) h = cc
