-- ===== src/Session/Play/Queued.antt =====
-- What a player queues (src/session/play_session.cc, src/frame/frame_queue.hh) and its consumer takes.
use seastar_live.Prelude.{
  ◌≡◌, refl, sym, ap, ◌∙◌, List, [], ◌∷◌, ◌++◌, append-nil, append_assoc, if_keeps,
}
use seastar_live.Frame.{Frame, Media, media, metadata, blank}
use seastar_live.Frame.Queue.{push_back, pop_all, is_empty}
use seastar_live.Frame.Queue.Tracked.{medias, medias-append, medias-kept}
use seastar_live.Session.Play.{AsyncQueue, push, notify_not_empty, close, not_empty}

-- The calls on the queue between two `clear`s.
pub data QueueCall : Type 0 where
  call_push : Frame → QueueCall
  call_notify : QueueCall
  call_close : QueueCall
  call_not_empty : QueueCall

unfoldable pub queue_call : AsyncQueue → QueueCall → AsyncQueue
unfolding push notify_not_empty close not_empty
queue_call q (call_push f) = push q f
queue_call q call_notify = notify_not_empty q
queue_call q call_close = close q
queue_call q call_not_empty = not_empty q

unfoldable pub queue_calls : AsyncQueue → List QueueCall → AsyncQueue
unfolding queue_call
queue_calls q [] = q
queue_calls q (c ∷ cs) = queue_calls (queue_call q c) cs

unfoldable pub taken_medias : List (List Frame) → List Media
taken_medias [] = []
taken_medias (fs ∷ gs) = medias fs ++ taken_medias gs

unfoldable pub pushed : List QueueCall → List Media
pushed [] = []
pushed (call_push (media m) ∷ cs) = m ∷ pushed cs
pushed (call_push (metadata m) ∷ cs) = pushed cs
pushed (call_push blank ∷ cs) = pushed cs
pushed (call_notify ∷ cs) = pushed cs
pushed (call_close ∷ cs) = pushed cs
pushed (call_not_empty ∷ cs) = pushed cs

taken_medias-append :
    (xs : List (List Frame)) (y : List Frame)
    → taken_medias (xs ++ y ∷ []) ≡ taken_medias xs ++ medias y
unfolding taken_medias
taken_medias-append [] y = append-nil (medias y)
taken_medias-append (x ∷ xs) y =
    rw (taken_medias-append xs y) (sym (append_assoc (medias x) (taken_medias xs) (medias y)))

-- The media that a queue holds or has handed over.
abbrev held : AsyncQueue → List Media
unfolding taken_medias
held q = taken_medias q.taken ++ medias q.base.queue

push-held : (q : AsyncQueue) (f : Frame) → held (push q f) ≡ held q ++ medias (f ∷ [])
unfolding held push push_back taken_medias
push-held q (media m) =
    ap (λ l. taken_medias q.taken ++ l) (medias-append q.base.queue (media m ∷ []))
    ∙ sym (append_assoc (taken_medias q.taken) (medias q.base.queue) (m ∷ []))
push-held q (metadata m) =
    ap (λ l. taken_medias q.taken ++ l) (medias-kept q.base m) ∙ sym (append-nil (held q))
push-held q blank =
    ap (λ l. taken_medias q.taken ++ l)
      (medias-append q.base.queue (blank ∷ []) ∙ append-nil (medias q.base.queue))
    ∙ sym (append-nil (held q))

notify_not_empty-held : (q : AsyncQueue) → held (notify_not_empty q) ≡ held q
unfolding held notify_not_empty pop_all
notify_not_empty-held q =
    if_keeps (λ (t : AsyncQueue). held t ≡ held q) (is_empty q.base) refl
      (if_keeps (λ (t : AsyncQueue). held t ≡ held q) q.waiting
        (append-nil (taken_medias (q.taken ++ q.base.queue ∷ []))
          ∙ taken_medias-append q.taken q.base.queue)
        refl)

nothing_taken : (q : AsyncQueue) → taken_medias (q.taken ++ [] ∷ []) ++ medias q.base.queue ≡ held q
unfolding held
nothing_taken q =
    ap (λ l. l ++ medias q.base.queue)
      (taken_medias-append q.taken [] ∙ append-nil (taken_medias q.taken))

close-held : (q : AsyncQueue) → held (close q) ≡ held q
unfolding held close
close-held q = if_keeps (λ (t : AsyncQueue). held t ≡ held q) q.waiting (nothing_taken q) refl

not_empty-held : (q : AsyncQueue) → held (not_empty q) ≡ held q
unfolding held not_empty
not_empty-held q = if_keeps (λ (t : AsyncQueue). held t ≡ held q) q.closed (nothing_taken q) refl

-- Between two clears every media frame that is pushed is handed to the consumer once or is still queued,
-- in the order of the pushes, whatever metadata comes between, and however pushes, notices, closings
-- and waits follow one another.
pub queue_calls-medias :
    (q : AsyncQueue) (cs : List QueueCall)
    → taken_medias (queue_calls q cs).taken ++ medias (queue_calls q cs).base.queue
      ≡ (taken_medias q.taken ++ medias q.base.queue) ++ pushed cs
unfolding queue_calls queue_call pushed held
queue_calls-medias q [] = sym (append-nil (held q))
queue_calls-medias q (call_push (media m) ∷ cs) =
    queue_calls-medias (push q (media m)) cs
    ∙ ap (λ l. l ++ pushed cs) (push-held q (media m))
    ∙ append_assoc (held q) (m ∷ []) (pushed cs)
queue_calls-medias q (call_push (metadata m) ∷ cs) =
    queue_calls-medias (push q (metadata m)) cs
    ∙ ap (λ l. l ++ pushed cs) (push-held q (metadata m) ∙ append-nil (held q))
queue_calls-medias q (call_push blank ∷ cs) =
    queue_calls-medias (push q blank) cs
    ∙ ap (λ l. l ++ pushed cs) (push-held q blank ∙ append-nil (held q))
queue_calls-medias q (call_notify ∷ cs) =
    queue_calls-medias (notify_not_empty q) cs ∙ ap (λ l. l ++ pushed cs) (notify_not_empty-held q)
queue_calls-medias q (call_close ∷ cs) =
    queue_calls-medias (close q) cs ∙ ap (λ l. l ++ pushed cs) (close-held q)
queue_calls-medias q (call_not_empty ∷ cs) =
    queue_calls-medias (not_empty q) cs ∙ ap (λ l. l ++ pushed cs) (not_empty-held q)
