-- ===== src/Write/Api/Submits.antt =====
-- From the preview (backend/app/api/write.py) to the queue (backend/app/api/write_submit.py).
use nsysu_crs.Common.{
  ℕ, ◌+◌, ◌<◌, Text, ◌≡◌, ◌≢◌, sym, ap, ◌∙◌, Option, some, List, [], ◌∷◌, inl, inr,
}
use mathlib.Core.Option.{some-injective}
use nsysu_crs.Auth.Redis.{FakeRedis, at_time}
use nsysu_crs.Auth.Tokens.{ConfirmRecord, RecordJson, consume_confirm}
use nsysu_crs.Catalog.{Course}
use nsysu_crs.Write.Canonical.{CanonicalOp, parse_canonical_segments, payload_hash}
use nsysu_crs.Write.Request.{OpIn}
use nsysu_crs.Write.Api.{Outside, Shown, Confirmation, writable, post_write_preview}
use nsysu_crs.Write.Api.Confirms.{AreShownClean, post_write_preview-Confirms}
use nsysu_crs.Write.Submit.{SubmitRequest, Reply, accepted, Site, Stores, given, post_write_submit}
use nsysu_crs.Write.Submit.Replies.{is_created}
use nsysu_crs.Write.Submit.Accepted.{post_write_submit-Answers}

hash_in : Reply → Text
hash_in (accepted id phash) = phash
hash_in reply = []

given_token : (token t : Text) → given (some token) ≡ some t → token ≡ t
given_token [] t h = cc
given_token (c ∷ token) t h = some-injective (c ∷ token) t h

same_record :
    (json : RecordJson) (token t : Text) (r : FakeRedis) (a b : ConfirmRecord)
    → token ≡ t
    → (consume_confirm json token r).0 ≡ some a
    → (consume_confirm json t r).0 ≡ some b
    → a ≡ b
same_record json token t r a b e h k =
    some-injective a b (sym h ∙ (ap (λ u. (consume_confirm json u r).0) e ∙ k))

same_batch :
    (a b : ConfirmRecord) (xs ys : List CanonicalOp)
    → a ≡ b
    → parse_canonical_segments a.canonical_ops ≡ some xs
    → parse_canonical_segments b.canonical_ops ≡ some ys
    → xs ≡ ys
same_batch a b xs ys e h k =
    some-injective xs ys
      (sym h ∙ (ap (λ (c : ConfirmRecord). parse_canonical_segments c.canonical_ops) e ∙ k))

module _ {Params : Type 0} (out : Outside Params) (student_no : Text) (site : Site)
    (body : SubmitRequest) (session : Option Text) where
  -- A batch that was previewed as writable and is then confirmed with its token, in its time and at
  -- a site with the same JSON and the same hash, is queued under the hash that the preview showed, if
  -- the submission is accepted. As for the token itself, the canonical text of the response is not
  -- empty, no shown code is empty or holds a separator, and the JSON of a record is read back.
  pub post_write_preview-submits :
      (courses : List Course) (session_id : Text) (ops : List OpIn) (r : FakeRedis)
      (shown : Shown Params) (conf : Confirmation) (now : ℕ) (s : Stores) (id : ℕ) (phash : Text)
      → let res = post_write_preview out student_no courses session_id ops r in
        res.0 ≡ writable shown conf
        → conf.canonical_ops ≢ []
        → AreShownClean shown
        → ((entitled : ConfirmRecord)
            → out.records.validate (out.records.dump entitled) ≡ some entitled)
        → now < res.1.now + out.confirm_token_ttl
        → site.records ≡ out.records
        → site.sha256_hex ≡ out.sha256_hex
        → s.redis ≡ at_time now res.1
        → body.confirm_token ≡ some conf.confirm_token
        → (post_write_submit site body session student_no s).0 ≡ accepted id phash
        → phash ≡ conf.payload_hash
  unfolding hash_in
  post_write_preview-submits courses session_id ops r shown conf now s id phash h ne clean json
        before records hex redis token told =
      let (entitled, batch, found, owner, parsed, hash) =
        post_write_preview-Confirms out student_no courses session_id ops r shown conf now h ne
          clean json before in
      elim (post_write_submit-Answers site body session student_no s) [
        | inl refusal ↦ absurd (cc (refusal.told, ap is_created told))
        | inr (entitled', confirmed, inr orphaned) ↦ absurd (cc (orphaned.told, told))
        | inr (entitled', confirmed, inl queued) ↦
            let same_token =
              given_token conf.confirm_token confirmed.token
                (ap given (sym token) ∙ confirmed.is_given) in
            let found' : (consume_confirm out.records confirmed.token
                  (at_time now (post_write_preview out student_no courses session_id ops r).1)).0
                ≡ some entitled' =
              ap
                (λ (j : RecordJson).
                  (consume_confirm j confirmed.token
                    (at_time now (post_write_preview out student_no courses session_id ops r).1)).0)
                (sym records)
              ∙ (ap (λ u. (consume_confirm site.records confirmed.token u).0) (sym redis)
                  ∙ confirmed.found) in
            let same =
              same_record out.records conf.confirm_token confirmed.token _ entitled entitled'
                same_token found found' in
            let same_ops =
              same_batch entitled entitled' batch queued.ops same parsed queued.parsed in
            ap hash_in (sym told ∙ queued.told)
            ∙ (ap (λ f. payload_hash f student_no queued.ops) hex
                ∙ (ap (payload_hash out.sha256_hex student_no) (sym same_ops) ∙ hash))
      ]
