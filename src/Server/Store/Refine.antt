-- ===== src/Server/Store/Refine.antt =====
-- src/server/Service.hpp: requests that reach the callback one after the other are answered like
-- calls of the map they stand for.
use asyn_log_system.Server.Store.Coheres.{Coheres}
use asyn_log_system.Server.Handler.{gen_handler}
use asyn_log_system.Server.Service.{Reply, Request, Session}
use asyn_log_system.Server.Config.{Config}
use asyn_log_system.Prelude.Table.{find, Table}
use asyn_log_system.Prelude.Text.{Text}
use asyn_log_system.Json.{Json}
use asyn_log_system.Server.Store.{
  makes_unknown, makes_get, MakesAll, after_all, makes_put, answers_of, Makes, handle_all, answers,
  after, IsUsable, key, Answer, both, answer, Kind, Call, put, get, unknown, makes_none, makes_more,
}
use asyn_log_system.Server.Disk.{Host, Bundle}
use asyn_log_system.Prelude.{
  inr, inl, append_assoc, append-nil, ◌∙◌, Option-cases, ◌++◌, ap, subst, [], some_injective, sym,
  ok, ◌∷◌, none, some, ◌≡◌, ℕ, List, Option, refl,
}
use asyn_log_system.Server.Store.Steps.{
  Answered, gen_handler-put, gen_handler-get, gen_handler-unknown,
}

answer-known :
    (k : Kind) (name content : Text) (t : Table Text)
    → find (key k name) t ≡ some content
    → answer (get k name) t ≡ some (200, content)
unfolding answer
answer-known k name content t e = rw e

answer-stranger :
    (k : Kind) (name : Text) (t : Table Text)
    → find (key k name) t ≡ none
    → answer (get k name) t ≡ none
unfolding answer
answer-stranger k name t e = rw e

-- The answers to a call and to what follows.
pub both-eq_some :
    (a : Option Answer) (rest : Option (List Answer)) (expected : List Answer)
    → both a rest ≡ some expected
    → (x : Answer) × (xs : List Answer) × (a ≡ some x) × (rest ≡ some xs) × (expected ≡ x ∷ xs)
unfolding both
both-eq_some none rest expected e = cc
both-eq_some (some x) none expected e = cc
both-eq_some (some x) (some xs) expected e = (x, xs, refl, refl, sym (some_injective e))

module _ (j : Json) (b : Bundle) (base64_decode : Text → Option Text) (h : Host) (c : Config)
    (strerror : Text) (junk : ℕ) (ctime : ℕ → Text) where
  pub gen_handler-Makes :
      (req : Request) (call : Call) (s : Session) (t : Table Text) (a : Answer)
      → Makes base64_decode b h c req call
      → answer call t ≡ some a
      → IsUsable c
      → Coheres b h c s.world t
      → Answered j b base64_decode h c strerror junk ctime req call s t a
  unfolding answer
  gen_handler-Makes req (put k name content) s t a (makes_put _ _ _ _ decoded up can) e u co =
      subst (Answered j b base64_decode h c strerror junk ctime req (put k name content) s t)
        (some_injective e)
        (gen_handler-put j b base64_decode h c strerror junk ctime k req name content s t decoded up
          can u co)
  gen_handler-Makes req (get k name) s t a (makes_get _ _ _ decoded) e u co =
      elim (Option-cases (find (key k name) t)) [
        | inl stranger ↦ cc (e, answer-stranger k name t stranger)
        | inr (content, known) ↦
            subst (Answered j b base64_decode h c strerror junk ctime req (get k name) s t)
              (some_injective (sym (answer-known k name content t known) ∙ e))
              (gen_handler-get j b base64_decode h c strerror junk ctime k req name content s t
                decoded known u co)
      ]
  gen_handler-Makes req unknown s t a (makes_unknown _ path decoded e1 e2 e3) e u co =
      subst (Answered j b base64_decode h c strerror junk ctime req unknown s t) (some_injective e)
        (gen_handler-unknown j b base64_decode h c strerror junk ctime req path s t decoded e1 e2 e3
          co)

  -- If the settings let a stored file be found again and the service stands for a map from storage
  -- types and names to contents, requests that make calls of the map (uploads that can be stored
  -- as they are or packed and unpacked again, downloads of names, and requests of unknown paths),
  -- with no name asked for that was not stored before, are answered one after the other with the
  -- code and the body that the map gives, and the service stands for the map after the calls. The
  -- names are those of files, and the settings' places are different entries of the working
  -- directory.
  pub gen_handler-answers :
      (reqs : List Request) (calls : List Call) (s : Session) (t : Table Text)
      (expected : List Answer)
      → MakesAll base64_decode b h c reqs calls
      → answers calls t ≡ some expected
      → IsUsable c
      → Coheres b h c s.world t
      → (s' : Session) × (rs : List Reply) × (handle_all
            (gen_handler j b base64_decode h c strerror junk ctime)
            reqs
            s
          ≡ ok s')
        × (s'.replies ≡ s.replies ++ rs)
        × (answers_of rs ≡ expected)
        × Coheres b h c s'.world (after_all calls t)
  unfolding answers handle_all answers_of after_all
  gen_handler-answers _ _ s t expected makes_none e u co =
      (s, [], refl, sym (append-nil s.replies), some_injective e, co)
  gen_handler-answers _ _ s t expected (makes_more req call reqs calls one more) e u co =
      let (a, rest, e1, e2, e3) =
        both-eq_some (answer call t) (answers calls (after call t)) expected e in
      let (s1, served, (r, sent, code, body), effect, co1) =
        gen_handler-Makes req call s t a one e1 u co in
      let (s2, rs, all, sent2, given, co2) =
        gen_handler-answers reqs calls s1 (after call t) rest more e2 u co1 in
      (
        s2,
        r ∷ rs,
        rw served all,
        sent2 ∙ ap (λ x. x ++ rs) sent ∙ append_assoc s.replies (r ∷ []) rs,
        (λ i. (code i, body i) ∷ given i) ∙ sym e3,
        co2,
      )
