-- ===== src/Tests/Registry.antt =====
-- Runs of the feature registry and of the log queue.
use aws_iot_device_client.Base.{ℕ, ◌≡◌, refl, false, List, [], ◌∷◌, ◌++◌, none, some, text, length}
use aws_iot_device_client.FeatureRegistry.{Features, get, contains, get_size, start_all, stop_all}
use aws_iot_device_client.FeatureRegistry.Stopping.{stop_all_lem}
use aws_iot_device_client.LogQueue.{LogQueue}
use aws_iot_device_client.LogQueue.Delivery.{Event, logged, asked, run, fifo}

abbrev features : Features ℕ
features = (text "Jobs", some 1) ∷ (text "Samples", none) ∷ (text "Shadow", some 2) ∷ []

stop_all_lem_example :
    ((stop_all features).0 ≡ start_all features)
    × (length (stop_all features).0 ≡ get_size features)
    × (get_size (stop_all features).1 ≡ 0)
    × (get (text "Jobs") (stop_all features).1 ≡ none)
    × (contains (text "Jobs") (stop_all features).1 ≡ contains (text "Jobs") features)
stop_all_lem_example = stop_all_lem features (text "Jobs")

abbrev queue : LogQueue ℕ
queue = record { is_shutdown = false; log_queue = some 1 ∷ [] }

abbrev logging : List (Event ℕ)
logging = logged 2 ∷ asked ∷ logged 3 ∷ asked ∷ []

fifo_example :
    (run logging queue).0 ++ (run logging queue).1.log_queue ≡ some 1 ∷ some 2 ∷ some 3 ∷ []
fifo_example = fifo logging queue refl refl
