-- ===== src/Auth/Requests/Redeemed.antt =====
-- What a verification token lets its holder touch.
use vapivoiceassistant.Prelude.{
  ℕ, String, ◌≡◌, refl, Bool, true, false, Option, some, eq_refl, truthy_text, if◌then◌else◌,
}
use vapivoiceassistant.Errors.{is_ok}
use vapivoiceassistant.Models.{Booking}
use vapivoiceassistant.Access.Actor.{has_valid_booking_verification}
use vapivoiceassistant.Access.Ownership.{authorize_booking_access}
use vapivoiceassistant.VerificationService.{VerificationWorld}
use vapivoiceassistant.Auth.Requests.{
  anonymous, token_opens, upgraded, require_booking_access, enforce,
}

-- The access of an anonymous caller, by whether its token opens the booking.
access_of :
    (opens : Bool) (request_id : Option String) (booking : Booking) (permission purpose : String)
    (w : VerificationWorld)
    → (let actor =
          if opens then upgraded booking purpose (anonymous request_id) else anonymous request_id in
        is_ok
          (enforce
            (authorize_booking_access actor
              (some booking.customer_id)
              booking.id
              permission
              (some purpose))
            actor
            w).0)
      ≡ opens
unfolding enforce authorize_booking_access has_valid_booking_verification
access_of true request_id booking permission purpose w =
    rw (eq_refl booking.id, eq_refl purpose) refl
access_of false request_id booking permission purpose w = refl

module _ (hash_token : String → String) (now : ℕ) where
  -- A caller without an account reaches a booking exactly with a token that opens it for the purpose.
  pub require_booking_access-anonymous :
      (request_id : Option String) (booking : Booking) (permission purpose : String)
      (token : Option String) (w : VerificationWorld)
      → is_ok
          (require_booking_access hash_token now
            (anonymous request_id)
            booking
            permission
            purpose
            token
            w).0
        ≡ token_opens hash_token now booking purpose (truthy_text token) w
  unfolding require_booking_access
  require_booking_access-anonymous request_id booking permission purpose token w =
      access_of (token_opens hash_token now booking purpose (truthy_text token) w) request_id
        booking permission purpose w
