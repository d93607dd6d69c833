-- ===== src/Tracker/Widget/Feedback.antt =====
-- sendFeedback of tracker/src/main.ts: what a feedback response is cut down to, and the responses
-- that wait until the server has acknowledged that their campaign was shown.
use trace_ux.Base.{
  ℕ, ◌≤◌, ◌≡◌, refl, ap, sym, ◌∙◌, inl, inr, Bool, false, not, ◌&&◌, ◌||◌, Option, none, some, List,
  [], ◌∷◌, Str, str_eq, arith, ltb, if◌then◌else◌, take, length, length-take, push, is_empty, map,
  All, Option-cases, Bool-cases,
}
use trace_ux.Tracker.Config.{codes}
use trace_ux.Tracker.Message.{Answer, FeedbackInput, Feedback, feedback}
use trace_ux.Tracker.State.{Tracker, send}

-- `campaignShownAcks`, by delivery token, and the responses that wait for one of them.
pub record Acks : Type 0 where
  pub pending : List Str
  pub waiting : List (Str × FeedbackInput × Str)

unfoldable pub is_pending : Str → List Str → Bool
is_pending t [] = false
is_pending t (x ∷ xs) = str_eq x t || is_pending t xs

abbrev pub cut_answer : Answer → Answer
cut_answer a = record { id = take 100 a.id; label = take 200 a.label; value = take 1_000 a.value }

abbrev pub or_default : Str → Str → Str
or_default [] d = d
or_default (c ∷ cs) d = c ∷ cs

-- The message, or nothing where the rating is out of range.
abbrev pub with_rating : Option ℕ → Tracker → FeedbackInput → Str → Option Feedback
with_rating none t i visitor_key = none
with_rating (some r) t i visitor_key =
    if ltb 10 r
    then none
    else some (record {
      visitor_key = visitor_key;
      user_id = t.identity.user_id;
      survey_id = take 100 (or_default i.survey_id (codes "default"));
      rating = r;
      comment = take 2_000 i.comment;
      answers = map cut_answer (take 20 i.answers);
      delivery_token = take 100 i.delivery_token;
    })

unfoldable pub feedback_of : Tracker → FeedbackInput → Str → Option Feedback
feedback_of t i visitor_key = with_rating i.rating t i visitor_key

abbrev pub send_if : Option Feedback → Tracker → Tracker
send_if none t = t
send_if (some f) t = send (feedback t.session_id f) false t

unfoldable pub send_feedback : FeedbackInput → Str → Acks × Tracker → Acks × Tracker
unfolding feedback_of is_pending
send_feedback i visitor_key (a, t) =
    let token = take 100 i.delivery_token in
    if t.disposed
    then (a, t)
    else if not (is_empty token) && is_pending token a.pending
    then (record a { waiting = push a.waiting (token, i, visitor_key) }, t)
    else (a, send_if (feedback_of t i visitor_key) t)

-- What a response is cut down to.
pub record Fits (f : Feedback) : Type 0 where
  pub rating : f.rating ≤ 10
  pub survey : length f.survey_id ≤ 100
  pub comment : length f.comment ≤ 2_000
  pub token : length f.delivery_token ≤ 100
  pub count : length f.answers ≤ 20
  pub each :
      All (λ a. (length a.id ≤ 100) × (length a.label ≤ 200) × (length a.value ≤ 1_000)) f.answers

cut_answers-Fits :
    (as' : List Answer)
    → All
        (λ a. (length a.id ≤ 100) × (length a.label ≤ 200) × (length a.value ≤ 1_000))
        (map cut_answer as')
cut_answers-Fits [] = tt
cut_answers-Fits (a ∷ as') = (
  (
    omega (arith, length-take {0} 100 a.id),
    omega (arith, length-take {0} 200 a.label),
    omega (arith, length-take {0} 1_000 a.value),
  ),
  cut_answers-Fits as',
)

length-cut_answers : (as' : List Answer) → length (map cut_answer as') ≡ length as'
length-cut_answers [] = refl
length-cut_answers (a ∷ as') = omega (arith, length-cut_answers as')

-- The message for a rating in range.
message_Fits :
    (t : Tracker) (i : FeedbackInput) (visitor_key : Str) (r : ℕ) {f : Feedback}
    → with_rating (some r) t i visitor_key ≡ some f
    → Fits f
message_Fits t i visitor_key r {f} h = elim (Bool-cases (ltb 10 r)) [
  | inl e ↦ absurd (ground (arith, e, h))
  | inr e ↦ record {
    rating = ground (arith, e, h);
    survey = ground (arith, e, h, length-take {0} 100 (or_default i.survey_id (codes "default")));
    comment = ground (arith, e, h, length-take {0} 2_000 i.comment);
    token = ground (arith, e, h, length-take {0} 100 i.delivery_token);
    count =
        ground (arith, e, h, length-cut_answers (take 20 i.answers), length-take {0} 20 i.answers);
    each = ground (arith, e, h, cut_answers-Fits (take 20 i.answers));
  }
]

-- Every feedback response that is sent fits the server's limits, whatever the page handed in.
pub feedback_of-Fits :
    (t : Tracker) (i : FeedbackInput) (visitor_key : Str) {f : Feedback}
    → feedback_of t i visitor_key ≡ some f
    → Fits f
unfolding feedback_of
feedback_of-Fits t i visitor_key h = elim (Option-cases i.rating) [
  | inl e ↦ absurd (ground (arith, e, h))
  | inr (r, e) ↦
      message_Fits t i visitor_key r (ap (λ o. with_rating o t i visitor_key) (sym e) ∙ h)
]
