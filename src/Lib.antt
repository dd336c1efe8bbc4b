-- ===== src/Lib.antt =====
-- LivePhoto backend: a bank's customer takes a live photo in the browser, a vision model says
-- whether it shows a live person alone, and the backend turns the photo into a portrait and
-- delivers it to the bank. This library models the core of the Python backend and proves what its
-- decisions rest on.
--
-- Parts and files (paths from the repository's root):
--   Python        the values that json.loads returns, dict operations, and CPython's library
--   State         one state for the whole backend, the exceptions, and actions over it
--   Settings      the settings read by the modelled code (backend/app/core/config.py); Gates has the
--                 validators of the attempt thresholds and of UAT and production
--   Transactions  backend/app/transactions: Status is TransactionStatus, Ids the id pattern, Store
--                 TransactionFileStore with its artifacts, Decisions decisions.py, Generated
--                 ids.py
--   Integrations  backend/app/integrations: Index is store.py, Consumers consumers.py, Attempts
--                 attempts.py, Session browser_session.py with backend/app/api/deps.py, Launch
--                 launch.py, Callback callback.py, Auth s2s_auth.py, StatusQuery status.py, Api
--                 backend/app/api/v1/integration.py, Redeem backend/app/api/xbiz.py
--   Liveness      backend/app/experiments/vlm/liveness.py: Policy has the person-state rules, Capture
--                 the current capture and its invalidation, Claims the single-flight claims,
--                 Evaluation the cached evaluations, Binding what ties a decision and a portrait to
--                 a capture
--   Browser       backend/app/api/v1/browser.py: Attempt has browser_attempts and browser_capture,
--                 Liveness browser_liveness, Portrait browser_portrait and browser_portrait_image
--                 with the store operations of backend/app/portrait/processor.py, Submit
--                 browser_submit, View browser_session
--   Portrait      connected_component_mask of backend/app/portrait/matte.py (Mask)
--   Vlm           backend/app/providers/vision: Errors is errors.py, Retry and Assessment have
--                 run_with_retries and parse_assessment of base.py; and
--                 backend/app/experiments/vlm: Frames is frame_selection.py, Service service.py,
--                 Metrics metrics.py, with the comparison of the strategies in Metrics/Comparison
--   Standalone    Processor is PortraitProcessor.process of backend/app/portrait/processor.py without
--                 a candidate path, Api backend/app/api/v1/transactions.py, whose create_transaction
--                 is create_experiment here
--   Dev           backend/app/api/v1/dev.py
--   Tests         a small backend, and the theorems applied to runs of it
-- A child module proves what its name says of its parent's definitions.
--
-- How the parts interact: a bank's server authenticates by a token, launches a transaction and
-- hands its customer the launch token, which the browser redeems for a session. Every browser
-- handler starts with authorize, which finds the session in the index and names the transaction. A
-- capture registers an attempt and invalidates the decision and the portrait. A liveness request
-- claims the capture, asks the model outside the lock, and promotes the answer only if the capture
-- is still the current one. A portrait request takes a snapshot of the decision and the capture,
-- runs the image pipeline outside the lock, and publishes only if the snapshot is still current. A
-- submit checks all of it, posts the callback, and completes the transaction.
--
-- The state is a World: the files of each transaction, the integration index and the callbacks
-- posted. An action is a function from a World to a result, or an exception, and a World; what was
-- written before an exception stays written. A dict is a list of fields; a JSON object that the
-- backend wrote is kept as its fields, so that a write reads back as what was written. Any other
-- file is bytes, which the parameter loads reads. A number in a JSON file is a natural number, a
-- float the text that stands for it. Instants are microseconds as natural numbers, and every
-- timestamp read is taken to have a time zone. What Python raises on values that the backend does
-- not write is not told apart: a file that is not UTF-8 counts as one that is not JSON, a list or
-- an object where the model's answer has a text is in no set of states (TypeError in the source),
-- and tokens are compared as texts (compare_digest raises on texts that are not ASCII). A time-out
-- in seconds and a number of retries in the settings are natural numbers.
--
-- A block under a transaction's lock is one atomic step. What other requests do while a handler
-- holds no lock is an argument of the handler, any function on the state; in portrait and liveness
-- there is one for each gap. A handler reads the clock once. Each id of a transaction is validated
-- when it enters, as the store does on each call. The fresh tokens, fresh ids and the time are
-- arguments.
--
-- Parameters that stand for other code: CPython's hashlib, json, datetime, base64 and os.environ
-- (Env), methods of str such as strip and rstrip, strftime for the launch, PyJWT and its key sets,
-- Pydantic's validation of a float, the comparison of a float with a fifth, the answers of the
-- vision providers, the image pipeline and the JPEG decoder, the parser of the face box, urlparse,
-- and the network, which answers each post by its number. In the browser's liveness handler the
-- answer of VlmEvaluationService.evaluate is an argument of the type that Vlm.Service gives it.
-- The theorems assume of them only what their statements name: a timestamp that reads back, a
-- token or a digest that is not empty.
--
-- Loops: the retry loop of send_callback is recursion on the retries left, so that it ends after
-- at most max_retries + 1 posts. The loop of create_transaction_with_generated_id is recursion on
-- the tries left, of which the source allows five, and the loop of run_with_retries on the
-- attempts left, which are max_retries + 1. The flood fill runs on fuel, as many turns as the
-- array has pixels: each pixel is pushed once (Portrait.Mask.Measure). The inner loop of the frame
-- selection has three turns, since at most two indices are taken before.
--
-- Not modelled: failures of the file system (OSError), logging and metrics; the text of responses,
-- but for the cookies of a redemption; the HTTP clients of the model providers, their prompts, the
-- mock provider, the experiment runner and its datasets; of its metrics the latencies, the Wilson
-- intervals, the rounding and the further groupings; the other steps of image processing, which
-- are numpy and Pillow; the validators of the portrait and CORS settings, the loading of consumer
-- profiles, middleware, health checks, the database skeleton and the frontend.
pub mod Prelude
pub mod Python
pub mod State
pub mod Settings
pub mod Transactions
pub mod Integrations
pub mod Liveness
pub mod Browser
pub mod Portrait
pub mod Vlm
pub mod Standalone
pub mod Dev
pub mod Tests
