-- ===== src/Core/Contact.antt =====
-- `contact_view` of Eve/core/views.py, behind `rate_limit`: the form that stores a message. Whether the form is
-- valid, which Django decides, is an argument.
pub mod Flooding
use django_app_eve.Prelude.{ℕ, String, Option, none, some, Bool, true, false, List, [], ◌∷◌, ◌++◌}
use django_app_eve.Core.Cache.{Cache}
use django_app_eve.Core.Throttling.{Response, too_many, served, rate_limit}
use django_app_eve.Accounts.Privacy.{ContactMessage}

-- The form once more, or the redirection after a message was stored.
pub data Page : Type 0 where
  shown : Page
  stored : ContactMessage → Page

-- What a request brings: no form, an invalid one, or a valid one with the message that it stores.
pub data Submission : Type 0 where
  visit invalid : Submission
  valid : ContactMessage → Submission

abbrev pub is_post : Submission → Bool
is_post visit = false
is_post invalid = true
is_post (valid message) = true

unfoldable pub page_of : Submission → Page
page_of visit = shown
page_of invalid = shown
page_of (valid message) = stored message

-- `form.save()`
unfoldable pub save : Response Page → List ContactMessage → List ContactMessage
save (served (stored message)) messages = messages ++ message ∷ []
save (served shown) messages = messages
save too_many messages = messages

abbrev pub contact_limit : ℕ
contact_limit = 5

module _ (c : Cache) (scaled : ℕ → ℕ) where
  abbrev pub World : Type 0
  World = c.State × List ContactMessage

  abbrev pub with_saved : List ContactMessage → Response Page × c.State → Response Page × World
  with_saved messages (response, s) = (response, (s, save response messages))

  -- `key` is the one of `rate_limit` for the client's address and the window.
  unfoldable pub contact_view : (key : String) → Submission → World → Response Page × World
  contact_view key submission (s, messages) = with_saved messages (
      rate_limit c scaled contact_limit 3600 (is_post submission) key (λ s. (page_of submission, s))
        s)

  -- The requests of one address in one window.
  unfoldable pub contact_all : (key : String) → List Submission → World → World
  contact_all key [] w = w
  contact_all key (x ∷ rest) w = contact_all key rest (contact_view key x w).1
